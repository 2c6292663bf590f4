-- ===== src/Webhook/Described.antt =====
-- The attributes that the handler gives to a validator, beside the request that they are of.
use cel_admission_polyfill.Prelude.{String, ◌≡◌, refl, ◌↔◌, Option, none}
use cel_admission_polyfill.Admission.{Attributes}
use cel_admission_polyfill.Wire.{AdmissionRequest}
use cel_admission_polyfill.Webhook.{request_attributes}
use cel_admission_polyfill.Webhook.Parse.{IsExtra, entry, entry-convert_extra}

module _ {Obj : Type 0} where
  -- The attributes are those of the request, with the objects of its two payloads; each key of the user's
  -- extra fields has the values that it has there, and they are nil exactly if they are nil there.
  pub record Describes (req : AdmissionRequest) (object old_object : Option Obj)
      (a : Attributes Obj) : Type 0 where
    pub of_object : a.object ≡ object
    pub of_old_object : a.old_object ≡ old_object
    pub of_kind : a.kind ≡ req.kind
    pub of_namespace : a.namespace ≡ req.namespace
    pub of_name : a.name ≡ req.name
    pub of_resource : a.resource ≡ req.resource
    pub of_subresource : a.subresource ≡ req.sub_resource
    pub of_operation : a.operation ≡ req.operation
    pub of_user_name : a.user.name ≡ req.user_info.name
    pub of_user_uid : a.user.uid ≡ req.user_info.uid
    pub of_groups : a.user.groups ≡ req.user_info.groups
    pub of_extra :
        (j : String)
        → IsExtra req.user_info.extra
        → (entry j a.user.extra ≡ entry j req.user_info.extra)
          × ((a.user.extra ≡ none) ↔ (req.user_info.extra ≡ none))

  pub request_attributes-Describes :
      (req : AdmissionRequest) (object old_object : Option Obj)
      → Describes req object old_object (request_attributes req object old_object)
  unfolding request_attributes
  request_attributes-Describes req object old_object = record {
    of_object = refl;
    of_old_object = refl;
    of_kind = refl;
    of_namespace = refl;
    of_name = refl;
    of_resource = refl;
    of_subresource = refl;
    of_operation = refl;
    of_user_name = refl;
    of_user_uid = refl;
    of_groups = refl;
    of_extra = λ j h. entry-convert_extra req.user_info.extra j h;
  }
