-- ===== src/Answers/Json/Faithful.antt =====
-- What a document loses on its way to the agent.
use typedb_mcp.Prelude.{◌≡◌, refl, ap, ◌∙◌, Bool, true, false, if◌then◌else◌}
use typedb_mcp.Answers.Json.{
  Numbers, Json, null, bool, integer, float, string, array, object, Jsons, no_items, item, Fields,
  no_fields, field, Document, null_document, boolean, number, text_document, documents, members,
  Documents, no_documents, document, Members, no_members, member, driver_json_to_serde,
  documents_to_serde, members_to_serde,
}

-- The document that JSON without integers stands for.
mutual
  pub read_back : (n : Numbers) → Json n → Document n
  read_back n null = null_document
  read_back n (bool b) = boolean b
  read_back n (integer i) = null_document
  read_back n (float x) = number x
  read_back n (string s) = text_document s
  read_back n (array l) = documents (items_back n l)
  read_back n (object m) = members (fields_back n m)

  items_back : (n : Numbers) → Jsons n → Documents n
  items_back n no_items = no_documents
  items_back n (item j l) = document (read_back n j) (items_back n l)

  fields_back : (n : Numbers) → Fields n → Members n
  fields_back n no_fields = no_members
  fields_back n (field k j m) = member k (read_back n j) (fields_back n m)

-- The document with null in place of every number that is not finite.
mutual
  pub finite_part : (n : Numbers) → Document n → Document n
  finite_part n null_document = null_document
  finite_part n (boolean b) = boolean b
  finite_part n (number x) = if n.is_finite x then number x else null_document
  finite_part n (text_document s) = text_document s
  finite_part n (documents l) = documents (finite_documents n l)
  finite_part n (members m) = members (finite_members n m)

  finite_documents : (n : Numbers) → Documents n → Documents n
  finite_documents n no_documents = no_documents
  finite_documents n (document d l) = document (finite_part n d) (finite_documents n l)

  finite_members : (n : Numbers) → Members n → Members n
  finite_members n no_members = no_members
  finite_members n (member k d m) = member k (finite_part n d) (finite_members n m)

number_back :
    (n : Numbers) (x : n.Float) (b : Bool)
    → read_back n (if b then float x else null) ≡ (if b then number x else null_document)
unfolding read_back
number_back n x true = refl
number_back n x false = refl

mutual
  unfolding read_back driver_json_to_serde finite_part

  document_back :
      (n : Numbers) (d : Document n) → read_back n (driver_json_to_serde n d) ≡ finite_part n d
  document_back n null_document = refl
  document_back n (boolean b) = refl
  document_back n (number x) = number_back n x (n.is_finite x)
  document_back n (text_document s) = refl
  document_back n (documents l) = ap (λ x. documents x) (documents_back n l)
  document_back n (members m) = ap (λ x. members x) (members_back n m)

  documents_back :
      (n : Numbers) (l : Documents n) → items_back n (documents_to_serde n l) ≡ finite_documents n l
  documents_back n no_documents = refl
  documents_back n (document d l) =
      ap (λ x. document x (items_back n (documents_to_serde n l))) (document_back n d)
      ∙ ap (λ x. document (finite_part n d) x) (documents_back n l)

  members_back :
      (n : Numbers) (m : Members n) → fields_back n (members_to_serde n m) ≡ finite_members n m
  members_back n no_members = refl
  members_back n (member k d m) =
      ap (λ x. member k x (fields_back n (members_to_serde n m))) (document_back n d)
      ∙ ap (λ x. member k (finite_part n d) x) (members_back n m)

-- A document is rendered with its whole structure: read back from its JSON it is the document itself,
-- with null in place of every number that is not finite.
pub read_back-driver_json_to_serde :
    (n : Numbers) (d : Document n) → read_back n (driver_json_to_serde n d) ≡ finite_part n d
read_back-driver_json_to_serde n d = document_back n d
