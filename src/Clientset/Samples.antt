-- ===== src/Clientset/Samples.antt =====
-- A REST client whose requests are what they say, and which keeps those that it sends.
use cel_admission_polyfill.Prelude.{
  ℕ, String, not, refl, Option, none, some, List, ◌∷◌, ◌==◌, comparable_text,
}
use cel_admission_polyfill.Transformed.{zero_meta}
use cel_admission_polyfill.Clientset.{RestClient, Fields}
use cel_admission_polyfill.Clientset.Rest.{of_object, of_options, of_data, Sent, Documented, plain}

abbrev pub Request : Type 0
Request = Sent String ℕ

abbrev pub with_body : Option String → Request → Request
with_body none q = q
with_body (some v) q = record q { body = of_object v }

abbrev pub rest : RestClient Request String String ℕ Unit (List Request)
rest = record {
  get = plain "GET";
  post = plain "POST";
  put = plain "PUT";
  delete = plain "DELETE";
  patch = λ pt. record (plain "PATCH") { content_type = some pt };
  resource = λ r q. record q { resource = r };
  name = λ n q. record q { name = some n };
  sub_resource = λ ss q. record q { sub_resource = ss };
  versioned_params = λ o q. record q { params = some o };
  timeout = λ d q. record q { timeout = d };
  body_object = with_body;
  body_options = λ o q. record q { body = of_options o };
  body_data = λ b q. record q { body = of_data b };
  do_into = λ q w. (("", none), q ∷ w);
  do_into_list = λ q w. ((record { metadata = zero_meta; items = none }, none), q ∷ w);
  do_error = λ q w. (none, q ∷ w);
  watch = λ q w. ((some tt, none), q ∷ w);
}

abbrev pub documented : Documented rest
documented = record {
  is_segment = λ s. not (s == "");
  is_segment_status = refl;
  sent = λ q. q;
  sent_get = refl;
  sent_post = refl;
  sent_put = refl;
  sent_delete = refl;
  sent_patch = λ pt. refl;
  sent_resource = λ r q. refl;
  sent_name = λ n q h. refl;
  sent_sub_resource = λ ss q h. refl;
  sent_versioned_params = λ o q. refl;
  sent_timeout = λ d q. refl;
  sent_body_object = λ v q. refl;
  sent_body_options = λ o q. refl;
  sent_body_data = λ b q. refl;
}

-- An object is its name, and options are their number of seconds.
abbrev pub fields : Fields String ℕ
fields = record { name_of = λ v. v; timeout_seconds = λ o. some o; with_watch = λ o. o }
