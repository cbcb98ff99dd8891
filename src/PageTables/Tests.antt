-- ===== src/PageTables/Tests.antt =====
-- vmm_map_page on an empty root table and three free frames.
use valerioedx.Base.{ℕ, ◌+◌, ◌≡◌, ◌/◌, refl, [], ◌∷◌, ◌==◌, if◌then◌else◌, arith}
use valerioedx.PageTables.{
  Tables, has, with_bit, memory_kind, kernel_rights, leaf_entry, vmm_map_page, vmm_map_region,
}
use valerioedx.PageTables.Leaf.{IsLeaf}
use valerioedx.PageTables.Tree.{Place, nowhere, top, IsTree}
use valerioedx.PageTables.Region.{IsTranslated, vmm_map_region_lem}
use valerioedx.PageTables.Map.{vmm_map_page_lem, HasOutcome}

abbrev empty_tables : Tables
empty_tables = record { ram = λ t i. 0; frames = 8192 ∷ 12288 ∷ 16384 ∷ [] }

abbrev root_only : ℕ → Place
root_only f = if f == 4096 then top else nowhere

root_only-IsTree : IsTree 4096 root_only empty_tables
root_only-IsTree = record {
  at_top = refl;
  no_null = refl;
  below_top = λ i v. cc v;
  below_middle = λ t i j h v. cc v;
  fresh = (
    refl,
    omega arith,
    refl,
    omega arith,
    (omega arith, (omega arith, tt)),
    (
      refl,
      omega arith,
      refl,
      omega arith,
      (omega arith, tt),
      (refl, omega arith, refl, omega arith, tt, tt),
    ),
  );
}

map_example :
    (e : ℕ) × IsLeaf 65536 3 e
    × HasOutcome 4096 1073745920 e empty_tables (vmm_map_page 4096 1073745920 65536 3 empty_tables)
map_example = vmm_map_page_lem 4096 1073745920 65536 3 root_only empty_tables root_only-IsTree

region_example :
    (entry : ℕ → ℕ) × ((p : ℕ) → IsLeaf p 3 (entry p))
    × IsTranslated 4096 1073745920 65536
        ((10000 + 4095) / 4096)
        entry
        empty_tables
        (vmm_map_region 4096 1073745920 65536 10000 3 empty_tables)
region_example =
    vmm_map_region_lem 4096 1073745920 65536 10000 3 root_only empty_tables root_only-IsTree
      (omega arith) (omega arith)

-- The entry of 0xa003f00, whose bits below 2^12 are kept as they are.
unaligned_entry : leaf_entry 0xa003f00 9 ≡ 0x6000000A003F03
unfolding leaf_entry has with_bit memory_kind kernel_rights
unaligned_entry = refl
