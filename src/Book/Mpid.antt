-- ===== src/Book/Mpid.antt =====
-- The market participant's identifier of an order record: what is stored is what is shown.
use itch_parser.Book.{OrderRecord, set_mpid_from, mpid_view}
use itch_parser.Prelude.{
  ℕ, zero, suc, ◌≤◌, ◌≡◌, ◌≢◌, refl, ap, ◌∙◌, List, [], ◌∷◌, ◌++◌, take, drop, replicate, length,
  arith,
}

-- The last byte is neither a space nor a NUL.
abbrev pub EndsVisible : List ℕ → Type 0
EndsVisible [] = Unit
EndsVisible (c ∷ []) = (c ≢ b' ') × (c ≢ 0)
EndsVisible (c ∷ d ∷ s) = EndsVisible (d ∷ s)

mpid_view-replicate : (n : ℕ) → mpid_view (replicate n b' ') ≡ []
unfolding mpid_view
mpid_view-replicate zero = refl
mpid_view-replicate (suc n) = ground (arith, mpid_view-replicate n)

mpid_view_padded : (s : List ℕ) (n : ℕ) → EndsVisible s → mpid_view (s ++ replicate n b' ') ≡ s
unfolding mpid_view
mpid_view_padded [] n v = mpid_view-replicate n
mpid_view_padded (c ∷ []) n v = ground (arith, mpid_view-replicate n, v.0, v.1)
mpid_view_padded (c ∷ d ∷ s) n v = ground (arith, mpid_view_padded (d ∷ s) n v)

take_all : (n : ℕ) (s : List ℕ) → length s ≤ n → take n s ≡ s
take_all zero [] h = refl
take_all zero (x ∷ s) h = absurd (omega arith)
take_all (suc n) [] h = refl
take_all (suc n) (x ∷ s) h = ap (◌∷◌ x) (take_all n s (omega arith))

drop-replicate : (i n : ℕ) → (k : ℕ) × (drop {A = ℕ} i (replicate n b' ') ≡ replicate k b' ')
drop-replicate zero n = (n, refl)
drop-replicate (suc i) zero = (0, refl)
drop-replicate (suc i) (suc n) = drop-replicate i n

-- An identifier of at most four bytes that ends in neither a space nor a NUL is shown as it was
-- stored.
pub mpid_view-set_mpid_from :
    (s : List ℕ) (rec : OrderRecord)
    → length s ≤ 4
    → EndsVisible s
    → mpid_view (set_mpid_from s rec).mpid ≡ s
unfolding set_mpid_from
mpid_view-set_mpid_from s rec h v =
    let (k, pad) = drop-replicate (length s) 4 in
    let whole : take 4 s ≡ s = take_all 4 s h in
    ap (λ q. mpid_view (q ++ drop (length q) (replicate 4 b' '))) whole
    ∙ ap (λ q. mpid_view (s ++ q)) pad
    ∙ mpid_view_padded s k v
