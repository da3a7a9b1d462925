-- ===== src/Format/Sse/Json.antt =====
-- src/format/sse.rs: the data of an event, on one line if it is JSON.
use fetch.Common.{ℕ, Bool, Option, none, some, List, [], ◌∷◌}
use fetch.Common.Text.{codes}
use fetch.Output
use fetch.Output.{Printer, green, blue, bold}

-- `serde_json::Value`; null, the Booleans and the numbers are the text that the library writes for them.
mutual
  pub data Value : Type 0 where
    scalar : List ℕ → Value
    string : List ℕ → Value
    array : Values → Value
    object : Fields → Value

  pub data Values : Type 0 where
    end : Values
    item : Value → Values → Values

  pub data Fields : Type 0 where
    last : Fields
    field : List ℕ → Value → Fields → Fields

-- The library: `from_str`, and `to_string` of a text.
pub record Serde : Type 0 where
  pub from_str : List ℕ → Option Value
  pub string_to_string : List ℕ → List ℕ

module _ (serde : Serde) where
  open serde use {from_str, string_to_string}

  unfoldable mutual
    pub write_json_inline : Value → Printer → Printer
    write_json_inline (scalar text) out = Output.push_str out text
    write_json_inline (string text) out =
        Output.write_styled out (string_to_string text) (green ∷ [])
    write_json_inline (array end) out = Output.push_str out (codes "[]")
    write_json_inline (array (item value values)) out =
        Output.push_str
          (write_items values (write_json_inline value (Output.push_str out (codes "[ "))))
          (codes " ]")
    write_json_inline (object last) out = Output.push_str out (codes "{}")
    write_json_inline (object (field key value fields)) out =
        Output.push_str
          (write_fields fields (
            write_json_inline value (
              Output.push_str
                (Output.write_styled (Output.push_str out (codes "{ ")) (string_to_string key)
                  (blue ∷ bold ∷ []))
                (codes ": "))))
          (codes " }")

    -- What is behind the first item, with a comma before each.
    pub write_items : Values → Printer → Printer
    write_items end out = out
    write_items (item value values) out =
        write_items values (write_json_inline value (Output.push_str out (codes ", ")))

    pub write_fields : Fields → Printer → Printer
    write_fields last out = out
    write_fields (field key value fields) out = write_fields fields (
        write_json_inline value (
          Output.push_str
            (Output.write_styled (Output.push_str out (codes ", ")) (string_to_string key)
              (blue ∷ bold ∷ []))
            (codes ": ")))

  unfoldable pub format_json_inline : Value → Bool → List ℕ
  format_json_inline value color = (write_json_inline value (Output.new color)).buf

  unfoldable pub format_event_data : List ℕ → Bool → List ℕ
  unfolding format_json_inline
  format_event_data text color = elim (from_str text) [
    | some value ↦ format_json_inline value color
    | none ↦ text
  ]
