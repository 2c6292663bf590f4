-- ===== src/Wire.antt =====
-- What pkg/webhook/server.go exchanges with its clients and with the libraries that read and write it:
-- the types of admission/v1 and of net/http that the handlers read, with what they do to a
-- `http.ResponseWriter`, and the decoders.
use cel_admission_polyfill.Prelude.{ℕ, String, Bool, Option, List}
use cel_admission_polyfill.Admission.{GroupVersionKind, GroupVersionResource, UserInfo}

abbrev pub Bytes : Type 0
Bytes = List ℕ

-- `admissionv1.AdmissionRequest`; a payload is the `Raw` of its `runtime.RawExtension`.
pub record AdmissionRequest : Type 0 where
  pub uid : String
  pub kind : GroupVersionKind
  pub resource : GroupVersionResource
  pub sub_resource : String
  pub name : String
  pub namespace : String
  pub operation : String
  pub user_info : UserInfo
  pub object : Bytes
  pub old_object : Bytes

-- `admissionv1.AdmissionResponse`, with the fields of its `Result`
pub record AdmissionResponse : Type 0 where
  pub uid : String
  pub allowed : Bool
  pub code : ℕ
  pub message : String
  pub reason : String

pub record AdmissionReview : Type 0 where
  pub kind : String
  pub api_version : String
  pub request : Option AdmissionRequest
  pub response : Option AdmissionResponse

-- What the handler reads of an `http.Request`: a header, and what `ReadFrom` got of the body before
-- it ended or failed (the error is dropped).
pub record HttpRequest : Type 0 where
  pub content_type : String
  pub body : Bytes

-- `http.Error(w, text, status)`, `w.Header().Set(name, value)` and `w.Write(bytes)`
pub data WriterCall : Type 0 where
  http_error : String → ℕ → WriterCall
  set_header : String → String → WriterCall
  write : Bytes → WriterCall

-- A handler returns, or dereferences nil.
pub data Reply : Type 0 where
  wrote : List WriterCall → Reply
  panicked : Reply

-- `encoding/json` at the types that the handler uses. `Unmarshal` returns what it filled in, too.
pub record Json (Obj E : Type 0) : Type 0 where
  pub unmarshal_review : Bytes → AdmissionReview × Option E
  pub unmarshal_unstructured : Bytes → Obj × Option E
  pub marshal_review : AdmissionReview → Bytes × Option E

-- `runtime.Decoder`, and `runtime.IsNotRegisteredError`
pub record Decoder (Obj E : Type 0) : Type 0 where
  pub decode : Bytes → Option Obj × Option GroupVersionKind × Option E
  pub is_not_registered : E → Bool
