-- ===== src/Tests/Names.antt =====
-- Tool names at a concrete table.
use mr_robot.Common.{◌≡◌, ◌↔◌, refl, true, some, [], ◌∷◌}
use mr_robot.Common.Text.{text, ◌==◌}
use mr_robot.Common.Map.{text_eq, has, get, set}
use mr_robot.Mcp.Names.{
  NameTable, built, refused, collision, tool_name, tool_ref, build_name_table, add_ref, add_refs,
  all_name_units, is_name_unit, is_provider_tool_name, is_tool_ref, ref_from,
}
use mr_robot.Mcp.Names.RoundTrip.{names_round_trip}

abbrev table : NameTable
table = record {
  name_by_ref = (text "fs.read", text "fs__read") ∷ [];
  ref_by_name = (text "fs__read", text "fs.read") ∷ [];
}

table_builds : build_name_table (text "fs.read" ∷ []) ≡ built table
unfolding build_name_table add_refs add_ref is_tool_ref ref_from is_name_unit get
    is_provider_tool_name all_name_units tool_name set
table_builds = refl

-- Two refs with one name.
collision_refused :
    build_name_table (text "a.b__c" ∷ text "a__b.c" ∷ [])
    ≡ refused (collision (text "a.b__c") (text "a__b.c"))
unfolding build_name_table add_refs add_ref is_tool_ref ref_from is_name_unit get
    is_provider_tool_name all_name_units tool_name set ◌==◌
collision_refused = refl

names_round_trip_example : (tool_ref (text "fs__read") table ≡ some (text "fs.read")) ↔ (
    (has (text "fs.read") (text "fs.read" ∷ []) ≡ true)
    × (tool_name (text "fs.read") ≡ text "fs__read"))
names_round_trip_example =
    names_round_trip (text "fs.read" ∷ []) table (text "fs__read") (text "fs.read") table_builds
