-- ===== src/Lsm/Lifetime/Stops.antt =====
-- `shutdown` of store/lsm.rs, and a process that ends inside a flush.
use mathlib.Core.Path.{subst}
use kave.Base.{
  ℕ, ◌≤◌, ◌⊎◌, Bool, true, [], ◌∷◌, ◌≡◌, refl, ◌∙◌, sym, ap, arith, inl, inr, append-nil,
}
use kave.Base.Bytes.{beq_refl}
use kave.Base.Map.{insert}
use kave.Base.Map.Laws.{get-insert}
use kave.CommitLog.Interface.{Logs, IsLogs}
use kave.Error.{ok, ▷_ok}
use kave.External.{Codec, IsBincode}
use kave.Lsm.{Lsm, BloomFilter, BloomMap, bloom_path}
use kave.Lsm.Invariant.{Aligned, NoFalseNegatives}
use kave.Lsm.Lifetime.{shuts_down, CanFlush, Can}
use kave.Lsm.Lifetime.Alive.{current, Alive}
use kave.Lsm.Lifetime.Files.{bloom_path-other, OnDisk-other}
use kave.Lsm.Lifetime.Runs.{write_sstable-Alive}
use kave.Lsm.Recovery.{write_bloom_map, shutdown}
use kave.Lsm.Write.{is_empty, write_sstable}
use kave.SsTable.Interface.{Tables, IsTables}
use kave.Store.{Transaction}
use kave.Store.Contract.{View}

module _ {Bloom : Type 0} {filters : BloomFilter Bloom} (bloom_laws : NoFalseNegatives filters)
    {tables : Tables} (laws : IsTables tables) {logs : Logs} (log_laws : IsLogs logs)
    {codec : Codec (BloomMap Bloom)} (bincode : IsBincode codec) (P : Transaction → Type 0) where
  -- Neither the flag nor the time that passes matters.
  pub later-Alive :
      (down : Bool) (now : ℕ) (s : Lsm Bloom) (f : View)
      → s.clock ≤ now
      → Alive bloom_laws laws log_laws codec P s f
      → Alive bloom_laws laws log_laws codec P (record s { is_shutdown = down; clock = now }) f
  later-Alive down now s f later h = record {
    table_list = h.table_list;
    lines = h.lines;
    files = record {
      disk = h.files.disk;
      held = h.files.held;
      short = h.files.short;
      made = h.files.made;
      bloom_file = h.files.bloom_file;
      on_time = omega (arith, h.files.on_time, later);
    };
    sound = record {
      disk = h.sound.disk;
      aligned = h.sound.aligned;
      memtable_sorted = h.sound.memtable_sorted;
    };
    each = h.each;
    logged = record {
      held = h.logged.held;
      short = h.logged.short;
      memtable_is = h.logged.memtable_is;
      ids_are = h.logged.ids_are;
    };
    shown = h.shown;
  }

  -- With the file of its own bloom map the store is alive.
  with_bloom_file-Alive :
      (bs : BloomMap Bloom) (s : Lsm Bloom) (f : View)
      → s.bloom_map ≡ bs
      → Alive bloom_laws laws log_laws codec P s f
      → Alive bloom_laws laws log_laws codec P
          (record s {
            directory = insert bloom_path (bincode.encoding bs) s.directory;
            bloom_modified = s.clock;
          })
          f
  with_bloom_file-Alive bs s f e h =
      let buf = bincode.encoding bs in
      let disk =
        OnDisk-other laws bloom_path buf s.directory h.table_list bloom_path-other h.files.disk in
      record {
        table_list = h.table_list;
        lines = h.lines;
        files = record {
          disk = disk;
          held = h.files.held;
          short = h.files.short;
          made = h.files.made;
          bloom_file =
              current buf bs
                (get-insert bloom_path bloom_path buf s.directory ∙ rw (beq_refl bloom_path))
                (ap codec.deserialize (sym (append-nil buf)) ∙ bincode.deserialize_ok bs [])
                (subst (λ (x : BloomMap Bloom). Aligned filters x h.table_list) e h.sound.aligned);
          on_time = h.files.on_time;
        };
        sound = record {
          disk = disk;
          aligned = h.sound.aligned;
          memtable_sorted = h.sound.memtable_sorted;
        };
        each = h.each;
        logged = record {
          held = h.logged.held;
          short = h.logged.short;
          memtable_is = h.logged.memtable_is;
          ids_are = h.logged.ids_are;
        };
        shown = h.shown;
      }

  write_bloom_map-Alive :
      (s : Lsm Bloom) (f : View)
      → Alive bloom_laws laws log_laws codec P s f
      → ((write_bloom_map codec s).0 ≡ ok tt)
        × Alive bloom_laws laws log_laws codec P (write_bloom_map codec s).1 f
  unfolding write_bloom_map
  write_bloom_map-Alive s f h = go s.bloom_map refl
    where
      go :
          (bs : BloomMap Bloom)
          → s.bloom_map ≡ bs
          → ((write_bloom_map codec s).0 ≡ ok tt)
            × Alive bloom_laws laws log_laws codec P (write_bloom_map codec s).1 f
      go [] e = rw (write_bloom_map, e) (refl, h)
      go (b ∷ bs) e =
          rw (write_bloom_map, e, bincode.serialize_ok (b ∷ bs))
            (refl, with_bloom_file-Alive (b ∷ bs) s f e h)

  pub shutdown-Alive :
      (s : Lsm Bloom) (f : View)
      → Alive bloom_laws laws log_laws codec P s f
      → Can laws log_laws shuts_down s
      → ((shutdown filters tables logs codec s).0 ≡ ok tt)
        × Alive bloom_laws laws log_laws codec P (shutdown filters tables logs codec s).1 f
  unfolding shutdown
  shutdown-Alive s f h can =
      let down = record s { is_shutdown = true } in
      let (named, answer, alive) =
        write_sstable-Alive bloom_laws laws log_laws codec P down f
          (later-Alive true s.clock s f (omega arith) h) still in
      rw (▷_ok (write_sstable filters tables logs down) _ answer)
        (write_bloom_map-Alive (write_sstable filters tables logs down).1 f alive)
    where
      still :
          (is_empty s.memtable ≡ true) ⊎ CanFlush laws log_laws (record s { is_shutdown = true })
      still = elim can [
        | inl empty ↦ inl empty
        | inr ready ↦ inr (record {
          newest = ready.newest;
          fits = ready.fits;
          ends_short = ready.ends_short;
          later = ready.later;
        })
      ]
