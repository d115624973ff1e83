-- ===== src/Bench/Recorder.antt =====
-- bench/hdr_recorder.h: the recorder of latencies over the histograms of HdrHistogram_c.
use itch_parser.Prelude.Int.{ℤ, pos, ltb_ℤ}
use itch_parser.Prelude.Result.{Result, ok, err, out_of_bounds, ◌>>=◌}
use itch_parser.Prelude.{
  ℕ, ◌≡◌, refl, Bool, true, false, ◌&&◌, List, [], ◌∷◌, ◌++◌, Option, none, some, codes,
  if◌then◌else◌,
}

-- The library: `init` is `none` where `hdr_init` leaves the pointer null; `row` is the line that
-- `fprintf` writes of a histogram after its label and a comma.
pub record Histograms (H : Type 0) : Type 0 where
  pub init : Option H
  pub record_value : ℤ → H → H
  pub row : H → List ℕ

pub record HdrRecorder (H : Type 0) : Type 0 where
  pub h_parse : Option H
  pub h_apply : Option H
  pub h_snapshot : Option H
  pub enabled : Bool

module _ {H : Type 0} (hdr : Histograms H) where
  unfoldable pub new_recorder : HdrRecorder H
  new_recorder = record {
    h_parse = hdr.init;
    h_apply = hdr.init;
    h_snapshot = hdr.init;
    enabled = false;
  }

  unfoldable pub enable : HdrRecorder H → HdrRecorder H
  enable r = record r { enabled = true }

  -- `hdr_record_value` reads through the pointer.
  abbrev pub hdr_record_value : ℤ → Option H → Result (Option H)
  hdr_record_value ns none = err out_of_bounds
  hdr_record_value ns (some h) = ok (some (hdr.record_value ns h))

  -- The guard that the three recording functions share.
  abbrev pub recorded : Bool → ℤ → Option H → Result (Option H)
  recorded enabled ns h = if enabled && ltb_ℤ (pos 0) ns then hdr_record_value ns h else ok h

  unfoldable pub record_parse : ℤ → HdrRecorder H → Result (HdrRecorder H)
  record_parse ns r = recorded r.enabled ns r.h_parse >>= λ h. ok (record r { h_parse = h })

  unfoldable pub record_apply : ℤ → HdrRecorder H → Result (HdrRecorder H)
  record_apply ns r = recorded r.enabled ns r.h_apply >>= λ h. ok (record r { h_apply = h })

  unfoldable pub record_snapshot : ℤ → HdrRecorder H → Result (HdrRecorder H)
  record_snapshot ns r =
      recorded r.enabled ns r.h_snapshot >>= λ h. ok (record r { h_snapshot = h })

  abbrev csv_header : List ℕ
  csv_header =
      codes "stage,count,min_ns,p50_ns,p90_ns,p99_ns,p999_ns,p9999_ns,max_ns,mean_ns,stddev_ns\n"

  -- The files written, each with its path and its bytes; `can_open` tells the paths at which
  -- `fopen` succeeds. A null histogram is read where its file opens.
  unfoldable pub dump_one :
      (List ℕ → Bool)
      → Option H
      → List ℕ
      → List ℕ
      → List (List ℕ × List ℕ)
      → Result (List (List ℕ × List ℕ))
  dump_one can_open h path label files =
      if can_open path
      then elim h [
        | none ↦ err out_of_bounds
        | some hist ↦ ok (files ++ (path, csv_header ++ label ++ codes "," ++ hdr.row hist) ∷ [])
      ]
      else ok files

  unfoldable pub dump_csvs :
      (List ℕ → Bool) → List ℕ → HdrRecorder H → Result (List (List ℕ × List ℕ))
  dump_csvs can_open dir r =
      if r.enabled
      then dump_one can_open r.h_parse (dir ++ codes "/hist_parse.csv") (codes "parse") []
        >>= dump_one can_open r.h_apply (dir ++ codes "/hist_apply.csv") (codes "apply")
        >>= dump_one can_open r.h_snapshot (dir ++ codes "/hist_snapshot.csv") (codes "snapshot")
      else ok []

  -- A recorder that is not enabled records nothing and writes nothing.
  disabled_records_nothing :
      (ns : ℤ) (can_open : List ℕ → Bool) (dir : List ℕ) (r : HdrRecorder H)
      → r.enabled ≡ false
      → (record_parse ns r ≡ ok r)
        × (record_apply ns r ≡ ok r)
        × (record_snapshot ns r ≡ ok r)
        × (dump_csvs can_open dir r ≡ ok [])
  unfolding record_parse record_apply record_snapshot dump_csvs
  disabled_records_nothing ns can_open dir r off = rw off (refl, refl, refl, refl)
