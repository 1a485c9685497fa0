-- ===== src/Lsm/Search.antt =====
-- `search_sstables` and `get` of store/lsm.rs, on a state given by its tables.
use kave.Base.{
  true, false, Option, none, some, List, [], ◌∷◌, ◌≡◌, refl, ◌∙◌, arith, ap, inl, inr, Bool-cases,
  Option-cases,
}
use kave.Base.Bytes.{Bytes, blt, blt_asymm}
use kave.Base.Map.{Map, get}
use kave.Base.Map.Laws.{over}
use kave.Error.{ok}
use kave.Lsm.{Lsm, BloomFilter, BloomMap, sort_desc}
use kave.Lsm.Invariant.{TableList, found_in, NamesBelow, Descends, Aligned, Covers, Filed, Sound}
use kave.Lsm.Read.{candidates, search_paths, search_sstables, lsm_get, data_of}
use kave.SsTable.{Directory}
use kave.SsTable.Interface.{Tables, IsTables}
use kave.Value.{Value}

-- The names are below `p`.
abbrev ListBelow : Bytes → List Bytes → Type 0
ListBelow p [] = Unit
ListBelow p (q ∷ qs) = (blt q p ≡ true) × ListBelow p qs

abbrev ListDescends : List Bytes → Type 0
ListDescends [] = Unit
ListDescends (p ∷ ps) = ListBelow p ps × ListDescends ps

sort_desc-ListDescends : (ps : List Bytes) → ListDescends ps → sort_desc ps ≡ ps
unfolding sort_desc
sort_desc-ListDescends [] d = refl
sort_desc-ListDescends (p ∷ []) d = refl
sort_desc-ListDescends (p ∷ q ∷ ps) d =
    rw (sort_desc-ListDescends (q ∷ ps) d.1) (ground (arith, blt_asymm q p))

module _ {Bloom : Type 0} (filters : BloomFilter Bloom) {tables : Tables}
    (laws : IsTables tables) where
  candidates-ListBelow :
      (key p : Bytes) (bs : BloomMap Bloom) (ts : TableList)
      → Aligned filters bs ts
      → NamesBelow p ts
      → ListBelow p (candidates filters tables key bs)
  unfolding candidates
  candidates-ListBelow key p [] [] a n = tt
  candidates-ListBelow key p [] (_ ∷ _) a n = absurd a
  candidates-ListBelow key p (_ ∷ _) [] a n = absurd a
  candidates-ListBelow key p ((q, b) ∷ bs) ((r, m) ∷ ts) a n =
      elim (Bool-cases (filters.contains b key)) [
        | inl may ↦ rw (may, a.0) (n.0, candidates-ListBelow key p bs ts a.2 n.1)
        | inr not ↦ rw not (candidates-ListBelow key p bs ts a.2 n.1)
      ]

  candidates-ListDescends :
      (key : Bytes) (bs : BloomMap Bloom) (ts : TableList)
      → Aligned filters bs ts
      → Descends ts
      → ListDescends (candidates filters tables key bs)
  unfolding candidates
  candidates-ListDescends key [] [] a d = tt
  candidates-ListDescends key [] (_ ∷ _) a d = absurd a
  candidates-ListDescends key (_ ∷ _) [] a d = absurd a
  candidates-ListDescends key ((q, b) ∷ bs) ((r, m) ∷ ts) a d =
      elim (Bool-cases (filters.contains b key)) [
        | inl may ↦
            rw (may, a.0)
              (candidates-ListBelow key r bs ts a.2 d.0, candidates-ListDescends key bs ts a.2 d.1)
        | inr not ↦ rw not (candidates-ListDescends key bs ts a.2 d.1)
      ]

  not_covered :
      (key : Bytes) (b : Bloom) (m : Map Value)
      → Covers filters b m
      → filters.contains b key ≡ false
      → get key m ≡ none
  not_covered key b m c h = elim (Option-cases (get key m)) [
    | inl no_entry ↦ no_entry
    | inr (v, e) ↦ cc (c key v e)
  ]

  search-miss :
      (key p : Bytes) (ps : List Bytes) (dir : Directory)
      → tables.search p key dir ≡ (ok none, dir)
      → search_paths filters tables key (p ∷ ps) dir ≡ search_paths filters tables key ps dir
  unfolding search_paths
  search-miss key p ps dir h = rw (search_paths, h)

  search-hit :
      (key p : Bytes) (ps : List Bytes) (dir : Directory) (v : Value)
      → tables.search p key dir ≡ (ok (some v), dir)
      → search_paths filters tables key (p ∷ ps) dir ≡ (ok (some v), dir)
  unfolding search_paths
  search-hit key p ps dir v h = rw (search_paths, h)

  search_candidates :
      (key : Bytes) (dir : Directory) (bs : BloomMap Bloom) (ts : TableList)
      → Aligned filters bs ts
      → Filed laws dir ts
      → search_paths filters tables key (candidates filters tables key bs) dir
        ≡ (ok (found_in key ts), dir)
  unfolding candidates found_in
  search_candidates key dir [] [] a f = unfold search_paths in refl
  search_candidates key dir [] (_ ∷ _) a f = absurd a
  search_candidates key dir (_ ∷ _) [] a f = absurd a
  search_candidates key dir ((q, b) ∷ bs) ((p, m) ∷ ts) a f =
      elim (Bool-cases (filters.contains b key)) [
        | inl may ↦
            let found = laws.search_ok p m dir key f.0 f.2 in
            elim (Option-cases (get key m)) [
              | inl no_entry ↦
                  rw
                    (
                      may,
                      a.0,
                      search-miss key p _ dir
                          (found ∙ ap (λ (o : Option Value). (ok o, dir)) no_entry),
                      no_entry,
                    )
                    (search_candidates key dir bs ts a.2 f.3)
              | inr (v, e) ↦ rw (
                may,
                a.0,
                search-hit key p _ dir v (found ∙ ap (λ (o : Option Value). (ok o, dir)) e),
                e,
              )
            ]
        | inr not ↦ rw (not, not_covered key b m a.1 not) (search_candidates key dir bs ts a.2 f.3)
      ]

  pub search_sstables_lem :
      (key : Bytes) (s : Lsm Bloom) (ts : TableList)
      → Sound laws filters s ts
      → search_sstables filters tables key s ≡ (ok (found_in key ts), s.directory)
  unfolding search_sstables
  search_sstables_lem key s ts h =
      rw
        (sort_desc-ListDescends _
          (candidates-ListDescends key s.bloom_map ts h.aligned h.disk.descends))
        (search_candidates key s.directory s.bloom_map ts h.aligned h.disk.filed)

  -- `get` returns the first data found: the memtable's, or else that of the newest table that has
  -- the key. It changes nothing.
  pub lsm_get_lem :
      (key : Bytes) (s : Lsm Bloom) (ts : TableList)
      → Sound laws filters s ts
      → lsm_get filters tables key s
        ≡ (ok (over (data_of (get key s.memtable)) (data_of (found_in key ts))), s)
  unfolding lsm_get
  lsm_get_lem key s ts h = ground (arith, search_sstables_lem key s ts h)
