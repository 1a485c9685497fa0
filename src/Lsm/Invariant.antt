-- ===== src/Lsm/Invariant.antt =====
-- The state as the tables that it stands for, newest first, and the value of each key.
use kave.Base.{◌≤◌, true, Option, none, some, List, [], ◌∷◌, ◌++◌, ◌≡◌}
use kave.Base.Bytes.{Bytes, blt}
use kave.Base.Map.{Map, get, IsSorted}
use kave.Base.Map.Laws.{over}
use kave.Lsm.{Lsm, BloomFilter, BloomMap}
use kave.Lsm.Read.{table_names, data_of}
use kave.SsTable.{Directory}
use kave.SsTable.Interface.{Tables, IsTables}
use kave.Store.Contract.{View}
use kave.Value.{Value}

-- A table's file name, and the map that was written to it.
abbrev pub TableList : Type 0
TableList = List (Bytes × Map Value)

-- What the newest table with the key has for it.
unfoldable pub found_in : Bytes → TableList → Option Value
found_in k [] = none
found_in k ((p, m) ∷ ts) = over (get k m) (found_in k ts)

-- The file names, oldest first.
unfoldable pub names_asc : TableList → List Bytes
names_asc [] = []
names_asc ((p, m) ∷ ts) = names_asc ts ++ p ∷ []

-- Every table's name is below `p`.
abbrev pub NamesBelow : Bytes → TableList → Type 0
NamesBelow p [] = Unit
NamesBelow p ((q, m) ∷ ts) = (blt q p ≡ true) × NamesBelow p ts

abbrev pub Descends : TableList → Type 0
Descends [] = Unit
Descends ((p, m) ∷ ts) = NamesBelow p ts × Descends ts

-- The crate's promise on bloom filters: no key that was added is missed.
pub record NoFalseNegatives {Bloom : Type 0} (filters : BloomFilter Bloom) : Type 0 where
  pub added : (k : Bytes) (b : Bloom) → filters.contains (filters.add k b) k ≡ true
  pub kept :
      (j k : Bytes) (b : Bloom)
      → filters.contains b k ≡ true
      → filters.contains (filters.add j b) k ≡ true

module _ {Bloom : Type 0} (filters : BloomFilter Bloom) where
  -- The filter may contain every key of the map.
  abbrev pub Covers : Bloom → Map Value → Type 0
  Covers b m = (k : Bytes) (v : Value) → get k m ≡ some v → filters.contains b k ≡ true

  -- The bloom map has the tables' names, and a filter that covers each.
  abbrev pub Aligned : BloomMap Bloom → TableList → Type 0
  Aligned [] [] = Unit
  Aligned [] (_ ∷ _) = ⊥
  Aligned (_ ∷ _) [] = ⊥
  Aligned ((q, b) ∷ bs) ((p, m) ∷ ts) = (q ≡ p) × Covers b m × Aligned bs ts

module _ {tables : Tables} (laws : IsTables tables) where
  -- The directory has the file of every table.
  abbrev pub Filed : Directory → TableList → Type 0
  Filed dir [] = Unit
  Filed dir ((p, m) ∷ ts) =
      (get p dir ≡ some (laws.image m))
      × IsSorted m
      × (laws.file_size m ≤ laws.limit)
      × Filed dir ts

  -- The files of the data directory are those of the tables, and others that are no tables.
  pub record OnDisk (dir : Directory) (ts : TableList) : Type 0 where
    pub sorted : IsSorted dir
    pub filed : Filed dir ts
    pub descends : Descends ts
    pub listed : table_names dir ≡ names_asc ts

  -- A sound state over these tables.
  pub record Sound {Bloom : Type 0} (filters : BloomFilter Bloom) (s : Lsm Bloom) (ts : TableList)
      : Type 0 where
    pub disk : OnDisk s.directory ts
    pub aligned : Aligned filters s.bloom_map ts
    pub memtable_sorted : IsSorted s.memtable

-- The value of a key: the memtable's entry hides the tables', and a tombstone is no value.
unfoldable pub view_of : Map Value → TableList → View
view_of memtable ts k = data_of (over (get k memtable) (found_in k ts))
