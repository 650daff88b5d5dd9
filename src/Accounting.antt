-- ===== src/Accounting.antt =====
-- reference/bass/tools.py: the accounting system of the example, its registry, and the offline model.
-- An entry is looked up by any value that Python can hash; a number and a Boolean of the same value
-- are the same key.
pub mod Ledger
use bass_platform.Base.{
  ℕ, String, Bool, true, false, not, Option, none, some, List, [], ◌∷◌, ◌++◌, Dict, nat_eq, length,
  ◌==◌, if◌then◌else◌,
}
use bass_platform.Errors.{Kind, Raised, Result, ok, err}
use bass_platform.Value.{
  truthy, Value, Items, Fields, ℤ, pos, negsuc, get, or_null, dict, texts, is_empty, one_unit,
}
use bass_platform.Models.{Outcome, Tool, Agent}
use bass_platform.Connector.{Connector, ReliabilityConfig, new_connector}
use bass_platform.Engine.{Respond, Response, Config, final}
use bass_platform.Engine.Tools.{register_connector, register}

pub data Key : Type 0 where
  text : String → Key
  number : ℤ → Key
  absent : Key

abbrev pub same_int : ℤ → ℤ → Bool
same_int (pos m) (pos n) = nat_eq m n
same_int (negsuc m) (negsuc n) = nat_eq m n
same_int _ _ = false

abbrev pub same_key : Key → Key → Bool
same_key (Key.text s) (Key.text t) = s == t
same_key (Key.number m) (Key.number n) = same_int m n
same_key Key.absent Key.absent = true
same_key _ _ = false

-- `a or b`
abbrev pub or_else : Value → Value → Value
or_else a b = if truthy a then a else b

-- What a dict finds a value by.
abbrev pub hashed : Value → Result Key
hashed Value.null = ok Key.absent
hashed (Value.bool b) = ok (Key.number (pos (if b then one_unit else 0)))
hashed (Value.num n) = ok (Key.number n)
hashed (Value.str s) = ok (Key.text s)
hashed (Value.arr _) = err (record { kind = Kind.other; message = "unhashable type: 'list'" })
hashed (Value.obj _) = err (record { kind = Kind.other; message = "unhashable type: 'dict'" })

-- `args.get("_idempotency_key") or args.get("invoice_number") or ""`, which is never `None`.
unfoldable pub key_of : Fields → Result Key
key_of args = hashed (
    or_else (or_null (get "_idempotency_key" args))
      (or_else (or_null (get "invoice_number" args)) (Value.str "")))

-- `self._entries`, in insertion order
abbrev pub Entries : Type 0
Entries = List (Key × Fields)

abbrev pub find_entry : Key → Entries → Option Fields
find_entry k [] = none
find_entry k ((j, e) ∷ rest) = if same_key j k then some e else find_entry k rest

-- `_KNOWN_VENDORS`
abbrev vendor_id : String → Option String
vendor_id vendor =
    if vendor == "Globex Corp"
    then some "V-100"
    else if vendor == "Initech"
    then some "V-200"
    else none

abbrev vendor_record : Value → Option String
vendor_record (Value.str vendor) = vendor_id vendor
vendor_record _ = none

-- `lookup_vendor`
unfoldable pub lookup_vendor : Fields → Entries → Outcome × Entries
lookup_vendor args entries =
    let vendor = or_null (get "vendor" args) in
    (
      Outcome.returned (
          Value.obj (
            dict (
              ("vendor", vendor)
              ∷ ("id", elim (vendor_record vendor) [ none ↦ Value.null | some id ↦ Value.str id ])
              ∷ ("known", Value.bool (elim (vendor_record vendor) [ none ↦ false | some _ ↦ true ]))
              ∷ []))),
      entries,
    )

abbrev pub new_entry : Fields → Fields
new_entry args = dict (
    ("vendor", or_null (get "vendor" args))
    ∷ ("invoice_number", or_null (get "invoice_number" args))
    ∷ ("amount", or_null (get "amount" args))
    ∷ ("status", Value.str "posted")
    ∷ [])

-- `create_ap_entry`, which looks the key up before it posts.
unfoldable pub create_ap_entry : Fields → Entries → Outcome × Entries
unfolding key_of
create_ap_entry args entries = elim (key_of args) [
  | err e ↦ (Outcome.raised_error e, entries)
  | ok k ↦ elim (find_entry k entries) [
    | some e ↦ (Outcome.returned (Value.obj e), entries)
    | none ↦ (Outcome.returned (Value.obj (new_entry args)), entries ++ (k, new_entry args) ∷ [])
  ]
]

-- `count`
abbrev pub entry_count : Entries → ℕ
entry_count entries = length entries

-- Where the accounting system stands in what is outside the engine.
pub record Books (W : Type 0) : Type 0 where
  pub entries : W → Entries
  pub put_entries : Entries → W → W

-- `_AccountingSystem()`: a registry starts with no entries.
abbrev pub new_books : {W : Type 0} → Books W → W → W
new_books books = books.put_entries []

abbrev pub type_of : String → Value
type_of name = Value.obj (dict (("type", Value.str name) ∷ []))

abbrev pub schema : List (String × Value) → List String → Fields
schema properties required = dict (
    ("type", Value.str "object")
    ∷ ("properties", Value.obj (dict properties))
    ∷ ("required", Value.arr (texts required))
    ∷ [])

module _ {W : Type 0} (books : Books W) where
  abbrev pub on_books : (Fields → Entries → Outcome × Entries) → Fields → W → Outcome × W
  on_books operation args w =
      let (outcome, entries) = operation args (books.entries w) in
      (outcome, books.put_entries entries w)

  abbrev pub lookup_vendor_tool : Tool W
  lookup_vendor_tool = record {
    name = "lookup_vendor";
    description = "Look up a vendor by name; returns id and known-status.";
    connector = "accounting";
    fn = on_books lookup_vendor;
    side_effect = false;
    cost_usd = 0;
    input_schema = schema (("vendor", type_of "string") ∷ []) ("vendor" ∷ []);
  }

  abbrev pub create_ap_entry_tool : Tool W
  create_ap_entry_tool = record {
    name = "create_ap_entry";
    description = "Create an accounts-payable entry in the accounting system.";
    connector = "accounting";
    fn = on_books create_ap_entry;
    side_effect = true;
    cost_usd = 0;
    input_schema =
        schema
          (("vendor", type_of "string")
            ∷ ("invoice_number", type_of "string")
            ∷ ("amount", type_of "number")
            ∷ [])
          ("vendor" ∷ "invoice_number" ∷ "amount" ∷ []);
  }

  -- `default_registry`, with the default `ReliabilityConfig` in the units of the times.
  unfoldable pub default_registry : ReliabilityConfig → Result (Dict Connector × Dict (Tool W))
  unfolding register_connector register new_connector
  default_registry config =
      let connectors = register_connector (new_connector "accounting" config) [] in
      elim (register connectors lookup_vendor_tool []) [
        | err e ↦ err e
        | ok tools ↦ elim (register connectors create_ap_entry_tool tools) [
          | err e ↦ err e
          | ok tools' ↦ ok (connectors, tools')
        ]
      ]

-- `email.get(k, default)`
abbrev pub get_or : String → Value → Fields → Value
get_or k default d = elim (get k d) [ none ↦ default | some v ↦ v ]

-- `task.get("email", {})`, whose own `get` fails on what is no dict; the text of that error is left
-- out.
abbrev email_of : Option Value → Result Fields
email_of none = ok Fields.end
email_of (some (Value.obj email)) = ok email
email_of (some _) = err (record { kind = Kind.other; message = "AttributeError" })

abbrev extracted : Fields → Value
extracted email = Value.obj (
    dict (
      ("vendor", get_or "vendor" (Value.str "Globex Corp") email)
      ∷ ("invoice_number", get_or "invoice_number" (Value.str "INV-4471") email)
      ∷ ("amount", get_or "amount" (Value.num (pos 8_200_000_000)) email)
      ∷ ("currency", Value.str "USD")
      ∷ []))

-- `MockModel.respond`, which leaves the scratch and the outside alone.
unfoldable pub mock_respond : {W : Type 0} → Respond W
mock_respond agent task scratch w =
    if agent.name == "invoice_extractor"
    then elim (email_of (get "email" task)) [
      | err e ↦ (err e, scratch, w)
      | ok email ↦ (ok (final (extracted email) 2_000), scratch, w)
    ]
    else (ok (final (Value.obj task) 1_000), scratch, w)
