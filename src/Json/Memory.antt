-- ===== src/Json/Memory.antt =====
-- Documents in memory, to run the clients on: what cJSON holds after it has parsed a text.
use winegrid_internship.Base.{
  false, if◌then◌else◌, List, [], ◌∷◌, Option, none, some, Bytes, ℤ, str_eq,
}
use winegrid_internship.Json.{CJson}

-- An object is the list of its members: `member name value others`, and `null` at the end.
pub data Document : Type 0 where
  null : Document
  text : Bytes → Document
  number : ℤ → Document
  member : Bytes → Document → Document → Document

unfoldable pub find_member : Document → Bytes → Option Document
find_member (member name value others) wanted =
    let rest = find_member others wanted in if str_eq name wanted then some value else rest
find_member _ wanted = none

unfoldable pub member_list : Document → List (Bytes × Document)
member_list (member name value others) = (name, value) ∷ member_list others
member_list _ = []

abbrev pub text_of : Document → Option Bytes
text_of (text s) = some s
text_of _ = none

abbrev pub number_value : Document → Option ℤ
number_value (number n) = some n
number_value _ = none

-- The library where `read` tells which documents the texts hold.
abbrev pub document_json : (Bytes → Option Document) → CJson
document_json read = record {
  Value = Document;
  parse = read;
  get_object_item = find_member;
  members = member_list;
  nameless = λ d. false;
  string_of = text_of;
  number_of = number_value;
}
