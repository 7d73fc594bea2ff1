-- ===== src/Prts/Properties.antt =====
-- pkg/prts/bacnet.go: the names of the properties of BACnet, in four parts.
mod First
mod Second
mod Third
mod Fourth
use Prim.Native.Nat.{ℕ}
use Prim.Native.String.{String}
use mathlib.Core.List.{List, ◌++◌}
use go_mod_edge_utils.Prts.Properties.First.{properties_from_0}
use go_mod_edge_utils.Prts.Properties.Second.{properties_from_140}
use go_mod_edge_utils.Prts.Properties.Third.{properties_from_288}
use go_mod_edge_utils.Prts.Properties.Fourth.{properties_from_405}

-- `propertyStringMap`
abbrev pub property_strings : List (ℕ × String)
property_strings =
    properties_from_0 ++ (properties_from_140 ++ (properties_from_288 ++ (properties_from_405)))
