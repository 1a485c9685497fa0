-- ===== src/Lsm/Lifetime/Alive.antt =====
-- The invariant of a running store of store/lsm.rs and of the files that it would leave.
use kave.Base.{
  ℕ, ◌≤◌, ltb, true, none, some, List, [], ◌≡◌, refl, ◌∙◌, sym, arith, Bool-cases, inl, inr,
}
use kave.Base.Bytes.{Bytes}
use kave.Base.Map.{get}
use kave.CommitLog.{CommitLogLine, created}
use kave.CommitLog.Interface.{LogFits, Logs, IsLogs, AllShort}
use kave.CommitLog.Lines.{written_at_between, Made}
use kave.CommitLog.Unfinished.{unfinished}
use kave.Error.{ok}
use kave.External.{Codec}
use kave.Lsm.{Lsm, BloomFilter, BloomMap, bloom_path, new}
use kave.Lsm.Read.{table_names, data_of}
use kave.Lsm.Invariant.{
  TableList, NoFalseNegatives, Aligned, OnDisk, Sound, view_of, names_asc, found_in,
}
use kave.Lsm.Lifetime.Each.{EachOf, EachOf-map}
use kave.Lsm.Recovery.{read_bloom_map, restore_bloom_map_from_file, restore_bloom_map, initialize}
use kave.Lsm.Recovery.Blooms.{blooms_of, blooms_of-Aligned, restore_bloom_map-rebuilt}
use kave.Lsm.Recovery.Crash.{reopened, restart, started, initialize-started, started-Sound}
use kave.Lsm.Recovery.Logged.{IsLogged}
use kave.Lsm.Recovery.Replay.{perform_txs}
use kave.SsTable.{Directory}
use kave.SsTable.Interface.{Tables, IsTables}
use kave.Store.{Transaction}
use kave.Store.Contract.{View}

module _ {Bloom : Type 0} (filters : BloomFilter Bloom) (codec : Codec (BloomMap Bloom)) where
  -- What the next start may find at `bloom_path`: nothing, a file that is older than the log, or a map
  -- with the filters of exactly these tables.
  pub data BloomFile (dir : Directory) (bloom_modified log_modified : ℕ) (ts : TableList)
      : Type 0 where
    absent : get bloom_path dir ≡ none → BloomFile dir bloom_modified log_modified ts
    stale :
        (buf : Bytes)
        → get bloom_path dir ≡ some buf
        → ltb bloom_modified log_modified ≡ true
        → BloomFile dir bloom_modified log_modified ts
    current :
        (buf : Bytes) (bs : BloomMap Bloom)
        → get bloom_path dir ≡ some buf
        → codec.deserialize buf ≡ ok bs
        → Aligned filters bs ts
        → BloomFile dir bloom_modified log_modified ts

  pub BloomFile-later :
      {dir : Directory} {b l : ℕ} {ts : TableList} (l' : ℕ)
      → l ≤ l'
      → BloomFile dir b l ts
      → BloomFile dir b l' ts
  BloomFile-later l' h (absent n) = absent n
  BloomFile-later l' h (stale buf there old) = stale buf there (ground (arith, h, old))
  BloomFile-later l' h (current buf bs there read aligned) = current buf bs there read aligned

module _ {Bloom : Type 0} {filters : BloomFilter Bloom} (bloom_laws : NoFalseNegatives filters)
    {tables : Tables} (laws : IsTables tables) {logs : Logs} (log_laws : IsLogs logs)
    (codec : Codec (BloomMap Bloom)) where
  -- The files: these tables, these lines of the log, and a bloom map's file that does not mislead.
  pub record Files (s : Lsm Bloom) (ts : TableList) (ls : List CommitLogLine) : Type 0 where
    pub disk : OnDisk laws s.directory ts
    pub held : created s.commit_log.file ≡ log_laws.image ls
    pub short : AllShort log_laws.line_size log_laws.line_room ls
    pub made : Made s.commit_log
    pub bloom_file : BloomFile filters codec s.directory s.bloom_modified s.log_modified ts
    pub on_time : s.log_modified ≤ s.clock

  from_file :
      (s : Lsm Bloom) (buf : Bytes)
      → Made s.commit_log
      → get bloom_path s.directory ≡ some buf
      → restore_bloom_map_from_file codec s ≡ read_bloom_map codec buf s
  unfolding restore_bloom_map_from_file read_bloom_map
  from_file s buf made there = rw (restore_bloom_map_from_file, there, made)

  rebuilt :
      (s : Lsm Bloom) (ts : TableList)
      → OnDisk laws s.directory ts
      → restore_bloom_map_from_file codec s ≡ ok none
      → (bs : BloomMap Bloom) × Aligned filters bs ts
        × (restore_bloom_map filters tables codec s ≡ (ok tt, record s { bloom_map = bs }))
  rebuilt s ts d h = (
    blooms_of filters ts,
    blooms_of-Aligned filters bloom_laws ts d.descends,
    restore_bloom_map-rebuilt filters laws codec s ts d h,
  )

  -- Whatever the bloom map's file, the map that a start restores has the filters of the tables.
  restored :
      (s : Lsm Bloom) (ts : TableList)
      → OnDisk laws s.directory ts
      → Made s.commit_log
      → BloomFile filters codec s.directory s.bloom_modified s.log_modified ts
      → (bs : BloomMap Bloom) × Aligned filters bs ts
        × (restore_bloom_map filters tables codec s ≡ (ok tt, record s { bloom_map = bs }))
  unfolding restore_bloom_map_from_file restore_bloom_map read_bloom_map
  restored s ts d made (absent n) = rebuilt s ts d (rw (restore_bloom_map_from_file, n))
  restored s ts d made (stale buf there old) =
      rebuilt s ts d (from_file s buf made there ∙ rw (read_bloom_map, old))
  restored s ts d made (current buf bs there read aligned) =
      elim (Bool-cases (ltb s.bloom_modified s.log_modified)) [
        | inl old ↦ rebuilt s ts d (from_file s buf made there ∙ rw (read_bloom_map, old))
        | inr new ↦
            let kept : restore_bloom_map_from_file codec s ≡ ok (some bs) =
              from_file s buf made there ∙ rw (read_bloom_map, new, read) in
            (bs, aligned, rw (restore_bloom_map, kept))
      ]

  module _ (P : Transaction → Type 0) where
    -- A sound state with these files, whose view is `f`, and whose memtable and ids are what the log
    -- says. Every unfinished transaction has the property.
    pub record Alive (s : Lsm Bloom) (f : View) : Type 0 where
      pub table_list : TableList
      pub lines : List CommitLogLine
      pub files : Files s table_list lines
      pub sound : Sound laws filters s table_list
      pub logged : IsLogged log_laws s lines
      pub shown : (k : Bytes) → view_of s.memtable table_list k ≡ f k
      pub each : EachOf P (unfinished lines)

    -- The next process starts on the files: it returns `Ok`, alive, with the view of the log's
    -- unfinished transactions over the tables.
    begins-Alive :
        (s : Lsm Bloom) (ts : TableList) (ls : List CommitLogLine) (bs : BloomMap Bloom)
        → OnDisk laws s.directory ts
        → created s.commit_log.file ≡ log_laws.image ls
        → AllShort log_laws.line_size log_laws.line_room ls
        → LogFits log_laws s.commit_log
        → EachOf P (unfinished ls)
        → BloomFile filters codec s.directory s.bloom_modified s.log_modified ts
        → s.log_modified ≤ s.clock
        → Aligned filters bs ts
        → restore_bloom_map filters tables codec (reopened s)
          ≡ (ok tt, record (reopened s) { bloom_map = bs })
        → ((initialize filters tables logs codec (reopened s)).0 ≡ ok tt)
          × Alive
              (initialize filters tables logs codec (reopened s)).1
              (view_of (perform_txs (unfinished ls) []) ts)
    unfolding restart started
    begins-Alive s ts ls bs disk held short whole each bloom_file on_time aligned done =
        let fresh = reopened s in
        let time =
          written_at_between fresh.commit_log (logs.get_unfinished_transactions fresh.commit_log).1
            s.log_modified s.clock on_time in
        let read = log_laws.unfinished_ok fresh.commit_log ls held short whole in
        rw (initialize-started bloom_laws laws log_laws codec fresh bs ls held short whole done) (
          refl,
          record {
            table_list = ts;
            lines = ls;
            files = record {
              disk = disk;
              held = read.1;
              short = short;
              made = log_laws.unfinished_made fresh.commit_log;
              bloom_file = BloomFile-later filters codec _ time.0 bloom_file;
              on_time = time.1;
            };
            sound = started-Sound bloom_laws laws log_laws codec fresh bs ts ls disk aligned tt;
            logged = record { held = read.1; short = short; memtable_is = refl; ids_are = refl };
            shown = λ k. refl;
            each = each;
          },
        )

    pub starts-Alive :
        (s : Lsm Bloom) (ts : TableList) (ls : List CommitLogLine)
        → Files s ts ls
        → LogFits log_laws s.commit_log
        → EachOf P (unfinished ls)
        → ((initialize filters tables logs codec (reopened s)).0 ≡ ok tt)
          × Alive
              (initialize filters tables logs codec (reopened s)).1
              (view_of (perform_txs (unfinished ls) []) ts)
    unfolding restart
    starts-Alive s ts ls h whole each =
        let (bs, aligned, done) = restored (reopened s) ts h.disk h.made h.bloom_file in
        begins-Alive s ts ls bs h.disk h.held h.short whole each h.bloom_file h.on_time aligned done

    -- The first start, in an empty data directory.
    pub first-Alive :
        (memtable_max_bytes now : ℕ)
        → ((initialize filters tables logs codec (new memtable_max_bytes [] none now 0 0)).0
            ≡ ok tt)
          × Alive
              (initialize filters tables logs codec (new memtable_max_bytes [] none now 0 0)).1
              (λ k. none)
    unfolding restart new restore_bloom_map_from_file get names_asc table_names unfinished
        perform_txs view_of found_in data_of
    first-Alive memtable_max_bytes now =
        let s = new memtable_max_bytes [] none now 0 0 in
        let disk : OnDisk laws [] [] = record {
          sorted = tt;
          filed = tt;
          descends = tt;
          listed = refl;
        } in
        let (bs, aligned, done) = rebuilt s [] disk refl in
        begins-Alive s [] [] bs disk (sym log_laws.image_nil) tt (omega arith) tt (absent refl)
          (omega arith) aligned done

    -- The first start leaves an empty log.
    pub first-log :
        (memtable_max_bytes now : ℕ)
        → created
            (initialize filters tables logs codec
              (new memtable_max_bytes [] none now 0 0)).1.commit_log.file
          ≡ []
    unfolding restart new restore_bloom_map_from_file get names_asc table_names started
    first-log memtable_max_bytes now =
        let s = new memtable_max_bytes [] none now 0 0 in
        let disk : OnDisk laws [] [] = record {
          sorted = tt;
          filed = tt;
          descends = tt;
          listed = refl;
        } in
        let (bs, aligned, done) = rebuilt s [] disk refl in
        let empty = sym log_laws.image_nil in
        rw (initialize-started bloom_laws laws log_laws codec s bs [] empty tt (omega arith) done)
          ((log_laws.unfinished_ok s.commit_log [] empty tt (omega arith)).1 ∙ log_laws.image_nil)

    pub Alive-view :
        {s : Lsm Bloom} {f g : View} → ((k : Bytes) → f k ≡ g k) → Alive s f → Alive s g
    Alive-view same h = record {
      table_list = h.table_list;
      lines = h.lines;
      files = h.files;
      sound = h.sound;
      logged = h.logged;
      shown = λ k. h.shown k ∙ same k;
      each = h.each;
    }

  -- What every transaction with one property has, every unfinished transaction has.
  pub Alive-map :
      (P Q : Transaction → Type 0) {s : Lsm Bloom} {f : View}
      → ((tx : Transaction) → P tx → Q tx)
      → Alive P s f
      → Alive Q s f
  Alive-map P Q more h = record {
    table_list = h.table_list;
    lines = h.lines;
    files = h.files;
    sound = h.sound;
    logged = h.logged;
    shown = h.shown;
    each = EachOf-map P Q more (unfinished h.lines) h.each;
  }
