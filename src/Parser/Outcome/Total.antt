-- ===== src/Parser/Outcome/Total.antt =====
-- How parsing ends, over all the type bytes.
use itch_parser.Messages.{ParsedMessage}
use itch_parser.Parser.{parse}
use itch_parser.Prelude.Result.{
  Failure, Result, ok, err, runtime_error, truncated_message, empty_message_buffer, out_of_bounds,
}
use itch_parser.Prelude.{
  ℕ, ◌≡◌, ◌≢◌, ◌⊎◌, inl, inr, List, [], ◌∷◌, Option, none, some, String, length, ◌==◌, ==_iff,
  if◌then◌else◌, Bool-cases, refl,
}
use itch_parser.Wire.Fields.{IsBuffer}
use itch_parser.Parser.Outcome.{Outcome, wire_size}
use itch_parser.Parser.Outcome.Directory.{
  parse_stock_directory-Outcome, parse_trading_action-Outcome,
}
use itch_parser.Parser.Outcome.Adds.{
  parse_add_order-Outcome, parse_add_order_mpid-Outcome, parse_order_replace-Outcome,
}
use itch_parser.Parser.Outcome.Removals.{
  parse_order_executed-Outcome, parse_order_executed_price-Outcome, parse_order_cancel-Outcome,
  parse_order_delete-Outcome,
}

choose :
    (t c : ℕ) (s s' : Option (ℕ × String)) (r r' : Result (Option ParsedMessage)) (buf : List ℕ)
    → (t ≡ c → Outcome s r buf)
    → Outcome s' r' buf
    → Outcome (if t == c then s else s') (if t == c then r else r') buf
choose t c s s' r r' buf this other = elim (Bool-cases (t == c)) [
  | inl same ↦ rw same (this ((==_iff t c).0 same))
  | inr differ ↦ rw differ other
]

-- For a buffer that is not empty: an unknown type byte gives no message; on a known one the parser
-- throws, naming the type, the size it needs and the size it got, if the buffer is shorter than
-- the type's size, and otherwise gives a message from which the whole buffer can be written again.
pub parse-Outcome :
    (t : ℕ) (p : List ℕ) → IsBuffer (t ∷ p) → Outcome (wire_size t) (parse (t ∷ p)) (t ∷ p)
unfolding parse
parse-Outcome t p b =
    choose t b'R' _ _ _ _ (t ∷ p) (λ e. rw e (parse_stock_directory-Outcome p (rw e at b)))
      (choose t b'H' _ _ _ _ (t ∷ p) (λ e. rw e (parse_trading_action-Outcome p (rw e at b)))
        (choose t b'A' _ _ _ _ (t ∷ p) (λ e. rw e (parse_add_order-Outcome p (rw e at b)))
          (choose t b'F' _ _ _ _ (t ∷ p) (λ e. rw e (parse_add_order_mpid-Outcome p (rw e at b)))
            (choose t b'E' _ _ _ _ (t ∷ p) (λ e. rw e (parse_order_executed-Outcome p (rw e at b)))
              (choose t b'C' _ _ _ _ (t ∷ p)
                (λ e. rw e (parse_order_executed_price-Outcome p (rw e at b)))
                (choose t b'X' _ _ _ _ (t ∷ p)
                  (λ e. rw e (parse_order_cancel-Outcome p (rw e at b)))
                  (choose t b'D' _ _ _ _ (t ∷ p)
                    (λ e. rw e (parse_order_delete-Outcome p (rw e at b)))
                    (choose t b'U' _ _ _ _ (t ∷ p)
                      (λ e. rw e (parse_order_replace-Outcome p (rw e at b))) (refl)))))))))

Outcome-ne-out_of_bounds :
    (s : Option (ℕ × String)) (r : Result (Option ParsedMessage)) (buf : List ℕ)
    → Outcome s r buf
    → r ≢ err out_of_bounds
Outcome-ne-out_of_bounds none r buf h e = cc
Outcome-ne-out_of_bounds (some (n, name)) r buf (inl (fits, (m, parsed, written))) e = cc
Outcome-ne-out_of_bounds (some (n, name)) r buf (inr (short, thrown)) e = cc

-- No buffer of bytes makes the parser read outside it.
pub parse-ne-out_of_bounds : (buf : List ℕ) → IsBuffer buf → parse buf ≢ err out_of_bounds
unfolding parse
parse-ne-out_of_bounds [] b = λ e. cc
parse-ne-out_of_bounds (t ∷ p) b =
    Outcome-ne-out_of_bounds (wire_size t) (parse (t ∷ p)) (t ∷ p) (parse-Outcome t p b)

abbrev pub Defined : Result (Option ParsedMessage) → Type 0
Defined r =
    ((o : Option ParsedMessage) × (r ≡ ok o)) ⊎ ((f : Failure) × (r ≡ err (runtime_error f)))

Outcome-Defined :
    (s : Option (ℕ × String)) (r : Result (Option ParsedMessage)) (buf : List ℕ)
    → Outcome s r buf
    → Defined r
Outcome-Defined none r buf h = inl (none, h)
Outcome-Defined (some (n, name)) r buf (inl (fits, (m, parsed, written))) = inl (some m, parsed)
Outcome-Defined (some (n, name)) r buf (inr (short, thrown)) =
    inr (truncated_message name n (length buf), thrown)

pub parse-Defined : (buf : List ℕ) → IsBuffer buf → Defined (parse buf)
unfolding parse
parse-Defined [] b = inr (empty_message_buffer, refl)
parse-Defined (t ∷ p) b =
    Outcome-Defined (wire_size t) (parse (t ∷ p)) (t ∷ p) (parse-Outcome t p b)
