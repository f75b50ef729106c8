-- ===== src/Answers/Json.antt =====
-- How crates/typedb-mcp-core/src/typedb.rs renders documents, values, concepts and rows as JSON. The
-- numbers are the argument `Numbers`, with the test of `Number::from_f64`; what `format!` makes of a
-- decimal, a date, a time or a duration is the text that stands in the value. A map is the list of its
-- entries.
pub mod Faithful
use typedb_mcp.Prelude.{String, Bool, true, false, Option, none, some, List, [], ◌∷◌, if◌then◌else◌}

pub record Numbers : Type 1 where
  pub Int : Type 0
  pub Float : Type 0
  pub is_finite : Float → Bool
  pub text : Float → String

-- `serde_json::Value`
mutual
  pub data Json (n : Numbers) : Type 0 where
    null : Json n
    bool : Bool → Json n
    integer : n.Int → Json n
    float : n.Float → Json n
    string : String → Json n
    array : Jsons n → Json n
    object : Fields n → Json n

  pub data Jsons (n : Numbers) : Type 0 where
    no_items : Jsons n
    item : Json n → Jsons n → Jsons n

  pub data Fields (n : Numbers) : Type 0 where
    no_fields : Fields n
    field : String → Json n → Fields n → Fields n

-- The driver's documents.
mutual
  pub data Document (n : Numbers) : Type 0 where
    null_document : Document n
    boolean : Bool → Document n
    number : n.Float → Document n
    text_document : String → Document n
    documents : Documents n → Document n
    members : Members n → Document n

  pub data Documents (n : Numbers) : Type 0 where
    no_documents : Documents n
    document : Document n → Documents n → Documents n

  pub data Members (n : Numbers) : Type 0 where
    no_members : Members n
    member : String → Document n → Members n → Members n

mutual
  pub driver_json_to_serde : (n : Numbers) → Document n → Json n
  driver_json_to_serde n null_document = null
  driver_json_to_serde n (boolean b) = bool b
  driver_json_to_serde n (number x) = if n.is_finite x then float x else null
  driver_json_to_serde n (text_document s) = string s
  driver_json_to_serde n (documents l) = array (documents_to_serde n l)
  driver_json_to_serde n (members m) = object (members_to_serde n m)

  documents_to_serde : (n : Numbers) → Documents n → Jsons n
  documents_to_serde n no_documents = no_items
  documents_to_serde n (document d l) = item (driver_json_to_serde n d) (documents_to_serde n l)

  members_to_serde : (n : Numbers) → Members n → Fields n
  members_to_serde n no_members = no_fields
  members_to_serde n (member k d m) = field k (driver_json_to_serde n d) (members_to_serde n m)

-- `typedb_driver::concept::Value`, with the texts that it is formatted to.
mutual
  pub data Value (n : Numbers) : Type 0 where
    boolean_value : Bool → Value n
    integer_value : n.Int → Value n
    double_value : n.Float → Value n
    string_value decimal_value date_value datetime_value datetime_tz_value duration_value :
        String → Value n
    struct_value : Parts n → String → Value n

  pub data Parts (n : Numbers) : Type 0 where
    no_parts : Parts n
    part : String → Value n → Parts n → Parts n
    missing_part : String → Parts n → Parts n

mutual
  pub value_to_json : (n : Numbers) → Value n → Json n
  value_to_json n (boolean_value b) = bool b
  value_to_json n (integer_value i) = integer i
  value_to_json n (double_value x) = if n.is_finite x then float x else string (n.text x)
  value_to_json n (string_value s) = string s
  value_to_json n (decimal_value s) = string s
  value_to_json n (date_value s) = string s
  value_to_json n (datetime_value s) = string s
  value_to_json n (datetime_tz_value s) = string s
  value_to_json n (duration_value s) = string s
  value_to_json n (struct_value ps name) =
      object
        (field "structType" (string name) (field "fields" (object (parts_to_json n ps)) no_fields))

  parts_to_json : (n : Numbers) → Parts n → Fields n
  parts_to_json n no_parts = no_fields
  parts_to_json n (part k v ps) = field k (value_to_json n v) (parts_to_json n ps)
  parts_to_json n (missing_part k ps) = field k null (parts_to_json n ps)

-- A concept, with the labels and names that the driver gives for it.
pub data Concept (n : Numbers) : Type 0 where
  entity relation : Option String → String → Concept n
  attribute : Option String → String → Value n → Concept n
  value_concept : String → Value n → Concept n
  entity_type relation_type role_type : String → Concept n
  attribute_type : String → Option String → Concept n

-- An `Option<String>` in `json!`
abbrev pub or_null : {n : Numbers} → Option String → Json n
or_null none = null
or_null (some s) = string s

abbrev kind_then : {n : Numbers} → String → Fields n → Json n
kind_then kind rest = object (field "kind" (string kind) rest)

unfoldable pub concept_to_json : (n : Numbers) → Concept n → Json n
concept_to_json n (entity label iid) =
    kind_then "entity" (field "type" (or_null label) (field "iid" (string iid) no_fields))
concept_to_json n (relation label iid) =
    kind_then "relation" (field "type" (or_null label) (field "iid" (string iid) no_fields))
concept_to_json n (attribute label value_type v) = kind_then "attribute" (
    field "type" (or_null label)
      (field "valueType" (string value_type) (field "value" (value_to_json n v) no_fields)))
concept_to_json n (value_concept value_type v) =
    kind_then "value"
      (field "valueType" (string value_type) (field "value" (value_to_json n v) no_fields))
concept_to_json n (entity_type label) =
    kind_then "entityType" (field "label" (string label) no_fields)
concept_to_json n (relation_type label) =
    kind_then "relationType" (field "label" (string label) no_fields)
concept_to_json n (role_type label) = kind_then "roleType" (field "label" (string label) no_fields)
concept_to_json n (attribute_type label value_type) =
    kind_then "attributeType"
      (field "label" (string label) (field "valueType" (or_null value_type) no_fields))

-- The cells of a row by column: a cell that is empty or cannot be read is null.
unfoldable pub cells_to_json : (n : Numbers) → List (String × Option (Concept n)) → Fields n
cells_to_json n [] = no_fields
cells_to_json n ((name, some c) ∷ row) = field name (concept_to_json n c) (cells_to_json n row)
cells_to_json n ((name, none) ∷ row) = field name null (cells_to_json n row)

abbrev pub concept_row_to_json : (n : Numbers) → List (String × Option (Concept n)) → Json n
concept_row_to_json n row = object (cells_to_json n row)
