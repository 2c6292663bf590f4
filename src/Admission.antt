-- ===== src/Admission.antt =====
-- What the parts of the webhook share: the API types that they pass around, Go's `error`, and the
-- interface `admission.ValidationInterface`. These types are of Go's and Kubernetes' libraries, and
-- only the fields and methods that the program uses are here.
use cel_admission_polyfill.Prelude.{
  ℕ, String, Bool, ◌&&◌, ◌≡◌, ◌↔◌, true, Option, List, Comparable, ◌==◌, comparable_text, eq_iff,
  arith,
}

-- `schema.GroupVersionKind`
pub record GroupVersionKind : Type 0 where
  pub group : String
  pub version : String
  pub kind : String

abbrev gvk_same : GroupVersionKind → GroupVersionKind → Bool
gvk_same a b = a.group == b.group && (a.version == b.version && a.kind == b.kind)

pub gvk_same_iff : (a b : GroupVersionKind) → (gvk_same a b ≡ true) ↔ (a ≡ b)
gvk_same_iff a b =
    ground (arith, eq_iff a.group b.group, eq_iff a.version b.version, eq_iff a.kind b.kind)

instance abbrev pub comparable_gvk : Comparable GroupVersionKind
comparable_gvk = record { is_same = gvk_same; same_iff = gvk_same_iff }

-- `schema.GroupVersionResource`
pub record GroupVersionResource : Type 0 where
  pub group : String
  pub version : String
  pub resource : String

-- An argument of `fmt.Errorf`.
pub data Arg (E : Type 0) : Type 0 where
  text : String → Arg E
  error : E → Arg E
  gvk : Option GroupVersionKind → Arg E

-- The `ErrStatus` of a `*k8serrors.StatusError`.
pub record StatusError : Type 0 where
  pub reason : String
  pub message : String
  pub code : ℕ

-- Go's `error`: `fmt.Errorf` with its format and arguments, the method `Error`, and
-- `errors.As` at the type `*k8serrors.StatusError`.
pub record Errors (E : Type 0) : Type 0 where
  pub errorf : String → List (Arg E) → E
  pub message : E → String
  pub as_status : E → Option StatusError

-- `user.DefaultInfo`, and the same four fields of `authenticationv1.UserInfo`, which a request
-- carries. A nil `Extra` is `none`.
pub record UserInfo : Type 0 where
  pub name : String
  pub uid : String
  pub groups : List String
  pub extra : Option (List (String × List String))

-- `admission.Attributes`, as `admission.NewAttributesRecord` builds it; no operation options, and
-- no dry run. An object that is nil is `none`.
pub record Attributes (Obj : Type 0) : Type 0 where
  pub object : Option Obj
  pub old_object : Option Obj
  pub kind : GroupVersionKind
  pub namespace : String
  pub name : String
  pub resource : GroupVersionResource
  pub subresource : String
  pub operation : String
  pub user : UserInfo

-- `admission.ValidationInterface`. `S` is the state of the world that a validator reads and
-- changes; the result `none` admits. The context and the object interfaces that the server passes
-- are the same in every call.
pub record Validator (Obj E S : Type 0) : Type 0 where
  pub handles : String → Bool
  pub validate : Attributes Obj → S → Option E × S
