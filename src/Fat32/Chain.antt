-- ===== src/Fat32/Chain.antt =====
-- Chains of clusters, and the bytes of a file.
use valerioedx.Base.{
  ℕ, suc, ◌+◌, ◌-◌, ◌*◌, ◌≤◌, ◌<◌, ◌≡◌, ◌≢◌, false, List, [], ◌∷◌, ltb, leb, if◌then◌else◌, arith,
  ap, ◌∙◌,
}
use valerioedx.Fat32.{Disk, Fs, end_of_chain, data_at, get_next_cluster}
use native.Mathlib.Nat.{suc-mul}
use valerioedx.Fat32.Volume.{IsVolume, IsCluster}

-- The entry of a cluster leads to the next of the chain, or ends it.
abbrev pub LeadsTo : Fs → Disk → ℕ → List ℕ → Type 0
LeadsTo fs d c [] = end_of_chain ≤ get_next_cluster fs c d
LeadsTo fs d c (c' ∷ cs) = get_next_cluster fs c d ≡ c'

abbrev pub Absent : ℕ → List ℕ → Type 0
Absent c [] = Unit {0}
Absent c (c' ∷ cs) = (c ≢ c') × Absent c cs

-- The clusters of a chain, each once.
abbrev pub Linked : (fs : Fs) (limit : ℕ) → Disk → List ℕ → Type 0
Linked fs limit d [] = Unit {0}
Linked fs limit d (c ∷ cs) =
    IsCluster limit c × LeadsTo fs d c cs × Absent c cs × Linked fs limit d cs

-- The byte at `o` of the file with the clusters `cs`.
unfoldable pub byte_at : Fs → Disk → List ℕ → ℕ → ℕ
byte_at fs d [] o = 0
byte_at fs d (c ∷ cs) o =
    if ltb o fs.bytes_per_cluster
    then d (data_at fs c + o)
    else byte_at fs d cs (o - fs.bytes_per_cluster)

pub byte_at_first :
    (fs : Fs) (d : Disk) (c : ℕ) (cs : List ℕ) (o : ℕ)
    → o < fs.bytes_per_cluster
    → byte_at fs d (c ∷ cs) o ≡ d (data_at fs c + o)
unfolding byte_at
byte_at_first fs d c cs o h = ground (arith, h)

pub byte_at_behind :
    (fs : Fs) (d : Disk) (c : ℕ) (cs : List ℕ) (o : ℕ)
    → fs.bytes_per_cluster ≤ o
    → byte_at fs d (c ∷ cs) o ≡ byte_at fs d cs (o - fs.bytes_per_cluster)
unfolding byte_at
byte_at_behind fs d c cs o h = ground (arith, h)

pub byte_at_skip :
    (fs : Fs) (d : Disk) (c : ℕ) (cs : List ℕ) (k r : ℕ)
    → byte_at fs d (c ∷ cs) (suc k * fs.bytes_per_cluster + r)
      ≡ byte_at fs d cs (k * fs.bytes_per_cluster + r)
byte_at_skip fs d c cs k r =
    byte_at_behind fs d c cs _ (omega (arith, suc-mul k fs.bytes_per_cluster))
    ∙ ap (byte_at fs d cs) (omega (arith, suc-mul k fs.bytes_per_cluster))

-- The next cluster of a chain is no mark of its end.
pub next_inside :
    {fs : Fs} {limit : ℕ} (v : IsVolume fs limit) (d : Disk) (c c' : ℕ)
    → get_next_cluster fs c d ≡ c'
    → IsCluster limit c'
    → leb end_of_chain (get_next_cluster fs c d) ≡ false
next_inside v d c c' e h = rw e (ground (arith, h, v.numbers))
