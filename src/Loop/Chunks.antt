-- ===== src/Loop/Chunks.antt =====
-- How the network cuts the byte stream makes no difference.
use medge_net.Prelude.{
  ℕ, zero, suc, ◌+◌, ◌<◌, ◌≡◌, sym, ◌∙◌, List, [], ◌∷◌, ◌++◌, Option, none, some, Bytes, arith,
  Option-cases, inl, inr, ap,
}
use medge_net.Loop.{drain, receive_with, receive_all_with}
use mathlib.Core.List.{flatten}

-- What a connection has for its loop to be that of a stream: a round that can be made can be made when
-- more bytes have arrived, with the same effect, and it takes at least a byte.
pub record Stream {C : Type 0} (next : C → Option C) (size : C → ℕ) (push : Bytes → C → C)
    : Type 0 where
  pub next-push : (y : Bytes) (c c' : C) → next c ≡ some c' → next (push y c) ≡ some (push y c')
  pub progress : (c c' : C) → next c ≡ some c' → size c' < size c
  pub push-push : (x y : Bytes) (c : C) → push y (push x c) ≡ push (x ++ y) c
  pub push-nil : (c : C) → push [] c ≡ c

module _ {C : Type 0} (next : C → Option C) (size : C → ℕ) (push : Bytes → C → C)
    (s : Stream next size push) where
  -- Fuel beyond the size of the buffer changes nothing.
  drain_fuel : (n m : ℕ) (c : C) → size c < n → size c < m → drain next n c ≡ drain next m c
  unfolding drain
  drain_fuel zero m c h k = absurd (omega arith)
  drain_fuel (suc n) zero c h k = absurd (omega arith)
  drain_fuel (suc n) (suc m) c h k = elim (Option-cases (next c)) [
    | inl e ↦ rw (e, drain)
    | inr (c', e) ↦
        let p = s.progress c c' e in rw (e, drain) (drain_fuel n m c' (omega arith) (omega arith))
  ]

  drain_stop : (n : ℕ) (c : C) → next c ≡ none → drain next (suc n) c ≡ c
  unfolding drain
  drain_stop n c e = rw (e, drain)

  drain_step : (n : ℕ) (c c' : C) → next c ≡ some c' → drain next (suc n) c ≡ drain next n c'
  unfolding drain
  drain_step n c c' e = rw (e, drain)

  -- The loop may be run on what has arrived so far, and go on when more arrives.
  drain-push :
      (n m : ℕ) (y : Bytes) (c : C)
      → size c < n
      → size (push y c) < m
      → drain next m (push y (drain next n c)) ≡ drain next m (push y c)
  unfolding drain
  drain-push zero m y c h k = absurd (omega arith)
  drain-push (suc n) zero y c h k = absurd (omega arith)
  drain-push (suc n) (suc m) y c h k = elim (Option-cases (next c)) [
    | inl e ↦ ap (λ z. drain next (suc m) (push y z)) (drain_stop n c e)
    | inr (c', e) ↦
        let e' = s.next-push y c c' e in
        let p = s.progress c c' e in
        let p' = s.progress (push y c) (push y c') e' in
        ap (λ z. drain next (suc m) (push y z)) (drain_step n c c' e)
        ∙ drain-push n (suc m) y c' (omega arith) (omega arith)
        ∙ drain_fuel (suc m) m (push y c') (omega arith) (omega arith)
        ∙ sym (drain_step m (push y c) (push y c') e')
  ]

  drain_done : (n : ℕ) (c : C) → size c < n → next (drain next n c) ≡ none
  unfolding drain
  drain_done zero c h = absurd (omega arith)
  drain_done (suc n) c h = elim (Option-cases (next c)) [
    | inl e ↦ rw (e, drain) e
    | inr (c', e) ↦ let p = s.progress c c' e in rw (e, drain) (drain_done n c' (omega arith))
  ]

  abbrev read_more : Bytes → C → C
  read_more = receive_with next size push

  -- Two reads one after the other leave the connection as one read of all their bytes does.
  pub receive_with-append :
      (x y : Bytes) (c : C) → read_more y (read_more x c) ≡ read_more (x ++ y) c
  unfolding receive_with
  receive_with-append x y c =
      let cx = push x c in
      let z = drain next (suc (size cx)) cx in
      let m = suc (size (push y z) + size (push y cx)) in
      drain_fuel (suc (size (push y z))) m (push y z) (omega arith) (omega arith)
      ∙ drain-push (suc (size cx)) m y cx (omega arith) (omega arith)
      ∙ drain_fuel m (suc (size (push y cx))) (push y cx) (omega arith) (omega arith)
      ∙ rw s.push-push

  -- After every read the inner loop has come to its own exit: the fuel is enough for any bytes.
  pub receive_with_done : (x : Bytes) (c : C) → next (read_more x c) ≡ none
  unfolding receive_with
  receive_with_done x c = drain_done (suc (size (push x c))) (push x c) (omega arith)

  receive_with-nil : (c : C) → next c ≡ none → read_more [] c ≡ c
  unfolding receive_with
  receive_with-nil c h = rw s.push-nil (drain_stop (size c) c h)

  pub receive_all-flatten :
      (xs : List Bytes) (c : C)
      → next c ≡ none
      → receive_all_with next size push xs c ≡ read_more (flatten xs) c
  unfolding receive_all_with flatten
  receive_all-flatten [] c h = sym (receive_with-nil c h)
  receive_all-flatten (x ∷ xs) c h =
      receive_all-flatten xs (read_more x c) (receive_with_done x c)
      ∙ receive_with-append x (flatten xs) c

  -- However the same bytes are cut into reads, they leave the connection alike.
  pub receive_all_with_chunking :
      (xs ys : List Bytes) (c : C)
      → next c ≡ none
      → flatten xs ≡ flatten ys
      → receive_all_with next size push xs c ≡ receive_all_with next size push ys c
  receive_all_with_chunking xs ys c stopped h =
      receive_all-flatten xs c stopped
      ∙ ap (λ b. read_more b c) h
      ∙ sym (receive_all-flatten ys c stopped)
