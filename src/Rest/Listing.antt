-- ===== src/Rest/Listing.antt =====
-- The routes of the status and of the instruments over the snapshots that the engine publishes.
use itch_parser.Engine.{Core, InstrumentInfo}
use itch_parser.Map.{find}
use itch_parser.Prelude.Int.{ℤ, ◌-ℤ◌, int64_of}
use itch_parser.Prelude.Result.{Result}
use itch_parser.Prelude.{
  ℕ, ◌≡◌, refl, ap, sym, ◌∙◌, Bool, List, [], ◌∷◌, ◌++◌, some, map, length, arith,
}
use itch_parser.Publish.{Publisher, current}
use itch_parser.Rest.{
  InstrumentEntry, Document, status, instruments, reply, entry_of, send, status_response,
  instruments_response, get_status, get_instruments,
}
use itch_parser.Snapshot.Coverage.{build_snapshot_covers}
use itch_parser.Snapshot.Index.{symbol_index-build_snapshot}
use itch_parser.Snapshot.{SystemSnapshot, build_snapshot, to_lower}
use itch_parser.TextMap.{find_text_split}

map-append : {A B : Type 0} (f : A → B) (xs ys : List A) → map f (xs ++ ys) ≡ map f xs ++ map f ys
map-append f [] ys = refl
map-append f (x ∷ xs) ys = ap (◌∷◌ (f x)) (map-append f xs ys)

length-map : {A B : Type 0} (f : A → B) (xs : List A) → length (map f xs) ≡ length xs
length-map f [] = refl
length-map f (x ∷ xs) = omega (arith, length-map f xs)

module _ {D : Type 0} (to_double : ℕ → D) (n : ℕ) (done : Bool) (now : ℕ) (c : Core) where
  abbrev snap : SystemSnapshot D
  snap = build_snapshot to_double n done now c

  -- For a publisher that holds a snapshot which the engine built, the status dumped has the snapshot's
  -- counter, time, age and mark of completion, and its number of instruments is the count of the
  -- instruments' route; this route lists, for every registered instrument, an entry whose symbol is
  -- the instrument's up to the case of its letters.
  pub get_status-get_instruments :
      (dump : Document D → Result (List ℕ)) (now_ms : ℤ) (p : Publisher D) (l : ℕ)
      (info : InstrumentInfo)
      → current p ≡ some snap
      → find l c.instruments ≡ some info
      → (before after : List InstrumentEntry) × (entry : InstrumentEntry) × (let entries =
            before ++ entry ∷ after in
          (get_instruments dump p ≡ send dump (reply (instruments (length entries) entries)))
          × (get_status dump now_ms p
              ≡ send dump
                  (reply (status n (length entries) now (some (now_ms -ℤ int64_of now)) done)))
          × (map to_lower entry.symbol ≡ map to_lower info.symbol))
  unfolding get_status get_instruments status_response instruments_response entry_of build_snapshot
  get_status-get_instruments dump now_ms p l info h there =
      let (key, indexed, spelling, _) = build_snapshot_covers to_double n done now c l info there in
      let (b, found, named, _) =
        symbol_index-build_snapshot to_double n done now c (map to_lower info.symbol) key indexed in
      let (before, after, j, split) = find_text_split key b snap.books found in
      let entries = map (λ e. entry_of e.1) snap.books in
      let shown : entries
          ≡ map (λ e. entry_of e.1) before ++ entry_of b ∷ map (λ e. entry_of e.1) after =
        ap (map (λ e. entry_of e.1)) split
        ∙ map-append (λ e. entry_of e.1) before ((j, b) ∷ after) in
      let listed : get_instruments dump p
          ≡ send dump (reply (instruments (length entries) entries)) =
        rw (get_instruments, instruments_response, h) refl in
      let counted : length entries ≡ length snap.books =
        length-map (λ e. entry_of e.1) snap.books in
      let told : get_status dump now_ms p
          ≡ send dump
              (reply (status n (length snap.books) now (some (now_ms -ℤ int64_of now)) done)) =
        rw (get_status, status_response, h) refl in
      (
        map (λ e. entry_of e.1) before,
        map (λ e. entry_of e.1) after,
        entry_of b,
        (
          listed ∙ ap (λ es. send dump (reply (instruments (length es) es))) shown,
          told
              ∙ ap (λ k. send dump (reply (status n k now (some (now_ms -ℤ int64_of now)) done)))
                  (sym counted ∙ ap length shown),
          ap (map to_lower) named ∙ spelling,
        ),
      )
