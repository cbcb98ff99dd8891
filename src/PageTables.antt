-- ===== src/PageTables.antt =====
-- Translation tables: kernel/mm/vmm.c. A table is known by its physical address, through which the
-- kernel reaches it; memory gives each table's 512 entries. The frames that `pmm_alloc_frame` will
-- return are a list, the next first; it returns 0 where none is left. Frames are aligned to pages, so
-- `phys | PT_TABLE | PT_VALID` of a new table is a sum. Flushing the TLB and the lock are left out.
pub mod Tree
mod Leaf
mod Map
mod Region
mod Walks
mod Tests
use valerioedx.Base.{
  ℕ, zero, suc, ◌+◌, ◌-◌, ◌*◌, ◌/◌, ◌%◌, ◌^◌, ◌<◌, ◌≡◌, ◌≢◌, Bool, true, false, ◌&&◌, ◌||◌, not,
  List, [], ◌∷◌, Option, none, some, ltb, leb, ◌==◌, if◌then◌else◌,
}

pub record Tables : Type 0 where
  pub ram : ℕ → ℕ → ℕ
  pub frames : List ℕ

-- PT_VALID is bit 0, the output address is in bits 12 to 47.
abbrev pub is_entry : ℕ → Bool
is_entry e = e % 2 == 1

abbrev pub address_in : ℕ → ℕ
address_in e = e / 4096 % 2 ^ 36 * 4096

abbrev pub table_entry : ℕ → ℕ
table_entry phys = phys + 3

abbrev pub index1 : ℕ → ℕ
index1 virt = virt / 2 ^ 30 % 512

abbrev pub index2 : ℕ → ℕ
index2 virt = virt / 2 ^ 21 % 512

abbrev pub index3 : ℕ → ℕ
index3 virt = virt / 2 ^ 12 % 512

abbrev pub store : (table i e : ℕ) → (ℕ → ℕ → ℕ) → ℕ → ℕ → ℕ
store table i e ram u j = if (u == table) && (j == i) then e else ram u j

abbrev pub clear : (table : ℕ) → (ℕ → ℕ → ℕ) → ℕ → ℕ → ℕ
clear table ram u j = if u == table then 0 else ram u j

-- The table behind an entry, which is made where there is none; 0 for NULL.
pub new_table : (table i : ℕ) → List ℕ → Tables → ℕ × Tables
new_table table i [] s = (0, s)
new_table table i (f ∷ fs) s =
    (f, record s { ram = store table i (table_entry f) (clear f s.ram); frames = fs })

pub get_next_table : (table i : ℕ) → Tables → ℕ × Tables
get_next_table table i s =
    if is_entry (s.ram table i)
    then (address_in (s.ram table i), s)
    else new_table table i s.frames s

-- The place of an entry: its table and its index.
pub vmm_get_pte_from_table : (page_table virt : ℕ) → Tables → Option (ℕ × ℕ)
vmm_get_pte_from_table page_table virt s =
    let e1 = s.ram page_table (index1 virt) in
    let e2 = s.ram (address_in e1) (index2 virt) in
    if page_table == 0
    then none
    else if not (is_entry e1)
    then none
    else if not (is_entry e2)
    then none
    else some (address_in e2, index3 virt)

pub vmm_get_pte_from_table_alloc : (page_table virt : ℕ) → Tables → Option (ℕ × ℕ) × Tables
vmm_get_pte_from_table_alloc page_table virt s =
    let (l2, s1) = get_next_table page_table (index1 virt) s in
    let (l3, s2) = get_next_table l2 (index2 virt) s1 in
    if page_table == 0
    then (none, s)
    else if l2 == 0
    then (none, s1)
    else if l3 == 0
    then (none, s2)
    else (some (l3, index3 virt), s2)

-- `w & (1 << bit)`. Of `flags`, VM_WRITABLE, VM_USER, VM_NO_EXEC and VM_DEVICE are the bits 0 to 3, and
-- PT_SW_COW is bit 55.
pub has : (w bit : ℕ) → Bool
has w zero = w % 2 == 1
has w (suc bit) = has (w / 2) bit

-- `w | (1 << bit)`.
pub with_bit : (bit w : ℕ) → ℕ
with_bit zero w = if w % 2 == 1 then w else w + 1
with_bit (suc bit) w = with_bit bit (w / 2) * 2 + w % 2

-- PT_PXN and PT_UXN, or MT_NORMAL.
pub memory_kind : (device : Bool) → ℕ → ℕ
memory_kind true entry = with_bit 54 (with_bit 53 entry)
memory_kind false entry = with_bit 2 entry

-- PT_AP_RO_EL0 has the bits 6 and 7, PT_AP_RW_EL0 bit 6.
pub user_rights : (cow writable : Bool) → ℕ → ℕ
user_rights true writable entry = with_bit 55 (with_bit 7 (with_bit 6 entry))
user_rights false true entry = with_bit 6 entry
user_rights false false entry = with_bit 7 (with_bit 6 entry)

-- PT_AP_RW_EL1 is 0, PT_AP_RO_EL1 bit 7.
pub kernel_rights : (writable : Bool) → ℕ → ℕ
kernel_rights true entry = entry
kernel_rights false entry = with_bit 7 entry

-- The entry that `vmm_map_page` stores: first PT_PAGE, PT_VALID, PT_AF and PT_SH_INNER, then the kind of
-- memory and the permissions.
pub leaf_entry : (phys flags : ℕ) → ℕ
leaf_entry phys flags =
    let page = with_bit 9 (with_bit 8 (with_bit 10 (with_bit 0 (with_bit 1 phys)))) in
    let entry = memory_kind (has flags 3) page in
    if has flags 1
    then user_rights (has flags 55) (has flags 0) (if has flags 2 then with_bit 54 entry else entry)
    else kernel_rights (has flags 0) (with_bit 54 entry)

pub vmm_map_page : (root virt phys flags : ℕ) → Tables → Tables
vmm_map_page root virt phys flags s =
    let (l2, s1) = get_next_table root (index1 virt) s in
    let (l3, s2) = get_next_table l2 (index2 virt) s1 in
    if l2 == 0
    then s1
    else if l3 == 0
    then s2
    else record s2 { ram = store l3 (index3 virt) (leaf_entry phys flags) s2.ram }

-- The pages of a region, from `virt` and `phys` on.
pub map_pages : (pages virt phys flags : ℕ) → (root : ℕ) → Tables → Tables
map_pages zero virt phys flags root s = s
map_pages (suc pages) virt phys flags root s =
    map_pages pages (virt + 4096) (phys + 4096) flags root (vmm_map_page root virt phys flags s)

-- `mapped` goes up by a page while it is below `size`.
pub vmm_map_region : (root virt phys size flags : ℕ) → Tables → Tables
vmm_map_region root virt phys size flags s = map_pages ((size + 4095) / 4096) virt phys flags root s
