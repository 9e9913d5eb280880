-- ===== src/Mcp/Names.antt =====
-- mcp/names.ts: the two spellings of a tool, a dotted ref and a provider's tool name.
pub mod RoundTrip
use mr_robot.Common.{
  ℕ, Bool, true, false, not, ◌&&◌, ◌||◌, Option, none, some, is_some, List, [], ◌∷◌, length, leb,
  ◌==◌ as nat_eq, if◌then◌else◌,
}
use mr_robot.Common.Text.{Text, text}
use mr_robot.Common.Map.{Map, text_eq, get, set}

-- `[A-Za-z0-9_-]`
unfoldable pub is_name_unit : ℕ → Bool
is_name_unit u =
    (leb b'A' u && leb u b'Z')
    || (leb b'a' u && leb u b'z')
    || (leb b'0' u && leb u b'9')
    || nat_eq u b'_'
    || nat_eq u b'-'

unfoldable pub all_name_units : Text → Bool
all_name_units [] = true
all_name_units (u ∷ t) = is_name_unit u && all_name_units t

-- PROVIDER_TOOL_NAME.test
unfoldable pub is_provider_tool_name : Text → Bool
is_provider_tool_name name = all_name_units name && leb 1 (length name) && leb (length name) 64

-- The rest of a ref: whether its segment has a unit yet, and whether a dot stands before it.
unfoldable pub ref_from : Bool → Bool → Text → Bool
ref_from filled dotted [] = filled && dotted
ref_from filled dotted (u ∷ t) =
    let inside = ref_from true dotted t in
    let behind_dot = ref_from false true t in
    if is_name_unit u then inside else nat_eq u b'.' && filled && behind_dot

-- TOOL_REF.test
unfoldable pub is_tool_ref : Text → Bool
is_tool_ref ref = ref_from false false ref

-- `ref.split('.').join('__')`
unfoldable pub tool_name : Text → Text
tool_name [] = []
tool_name (u ∷ t) = let rest = tool_name t in if nat_eq u b'.' then b'_' ∷ b'_' ∷ rest else u ∷ rest

pub record NameTable : Type 0 where
  pub name_by_ref : Map Text Text
  pub ref_by_name : Map Text Text

pub data Refusal : Type 0 where
  not_dotted bad_name : Text → Refusal
  collision : (first second : Text) → Refusal

pub data Built : Type 0 where
  built : NameTable → Built
  refused : Refusal → Built

-- `none` is a thrown ConfigError.
unfoldable pub tool_ref : Text → NameTable → Option Text
tool_ref name table = get name table.ref_by_name

-- The body of the loop.
unfoldable pub add_ref : Text → NameTable → Built
add_ref ref table =
    if not (is_tool_ref ref)
    then refused (not_dotted ref)
    else if is_some (get ref table.name_by_ref)
    then built table
    else if not (is_provider_tool_name (tool_name ref))
    then refused (bad_name ref)
    else elim (get (tool_name ref) table.ref_by_name) [
      | some other ↦ refused (collision other ref)
      | none ↦ built (record {
        name_by_ref = set ref (tool_name ref) table.name_by_ref;
        ref_by_name = set (tool_name ref) ref table.ref_by_name;
      })
    ]

unfoldable pub add_refs : List Text → NameTable → Built
add_refs [] table = built table
add_refs (ref ∷ refs) table = elim (add_ref ref table) [
  | refused why ↦ refused why
  | built more ↦ add_refs refs more
]

unfoldable pub build_name_table : List Text → Built
build_name_table refs = add_refs refs (record { name_by_ref = []; ref_by_name = [] })
