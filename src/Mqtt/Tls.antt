-- ===== src/Mqtt/Tls.antt =====
-- services/mqtt/tls.rs: the node's id from its certificate. The parsers are x509-parser's: a subject is
-- a list of relative names with their attributes.
use uswarm_unitctl.Base.{
  ◌≡◌, refl, Bool, true, false, List, [], ◌∷◌, ◌++◌, Text, codes, if◌then◌else◌, Result, ok, err,
}

pub data TlsError : Type 0 where
  io : Text → TlsError
  cert_parse : Text → TlsError
  no_common_name : TlsError

-- Whether the type is the common name's, and the value as a text, if it is one.
pub record Attribute : Type 0 where
  pub is_common_name : Bool
  pub value : Result Text Text

abbrev as_text : Result Text Text → Result Text TlsError
as_text (ok cn) = ok cn
as_text (err e) = err (cert_parse (codes "CN is not valid UTF-8: " ++ e))

-- The two loops: the first common name decides, the error of its text included.
unfoldable pub find_common_name : List Attribute → List (List Attribute) → Result Text TlsError
find_common_name [] [] = err no_common_name
find_common_name [] (rdn ∷ rdns) = find_common_name rdn rdns
find_common_name (attr ∷ attrs) rdns =
    let later = find_common_name attrs rdns in
    if attr.is_common_name then as_text attr.value else later

abbrev of_subject : Result (List (List Attribute)) Text → Result Text TlsError
of_subject (err e) = err (cert_parse e)
of_subject (ok subject) = find_common_name [] subject

-- `extract_node_id`: the file, if it can be read, and its subject, if it can be parsed.
unfoldable pub extract_node_id :
    {B : Type 0} → (B → Result (List (List Attribute)) Text) → Result B Text → Result Text TlsError
unfolding find_common_name
extract_node_id parse (err e) = err (io e)
extract_node_id parse (ok pem_data) = of_subject (parse pem_data)

second_name :
    find_common_name [] (
      (record { is_common_name = false; value = ok (codes "org") } ∷ [])
      ∷ (record { is_common_name = true; value = ok (codes "drone-1") } ∷ [])
      ∷ [])
    ≡ ok (codes "drone-1")
unfolding find_common_name
second_name = refl
