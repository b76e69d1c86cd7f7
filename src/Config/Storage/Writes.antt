-- ===== src/Config/Storage/Writes.antt =====
-- What a chain of writes puts into the buffer.
use industrial_edge_monitor.Base.{
  ℕ, zero, suc, ◌+◌, ◌-◌, ◌≤◌, ◌≡◌, ◌∙◌, ap, ap₂, sym, subst, refl, true, false, arith, List, [],
  ◌∷◌, ◌++◌, ◌||◌, ltb, drop, length, length-append, length-drop, take-append, drop-append,
  append_assoc, u8,
}
use industrial_edge_monitor.Config.Storage.{
  Writer, Step, ◌then_write◌, overwrite, write_bytes, write_u8, write_u16, write_u32, bytes_u8,
  bytes_u16, bytes_u32,
}

-- Bytes one group after another, to be read from the right as the writes are.
infixr 36 ◌then_bytes◌
abbrev pub ◌then_bytes◌ : List ℕ → List ℕ → List ℕ
a then_bytes b = a ++ b

-- The writer with `filled` behind it and room for `rest`.
abbrev pub writer_at : List ℕ → List ℕ → Writer
writer_at filled rest = record {
  contents = filled ++ rest;
  size = length filled + length rest;
  offset = length filled;
}

-- Where they fit, the step writes these bytes and nothing else.
pub record Writes (s : Step) (bytes : List ℕ) : Type 0 where
  pub wrote :
      (filled rest : List ℕ)
      → length bytes ≤ length rest
      → s (writer_at filled rest) ≡ (writer_at (filled ++ bytes) (drop (length bytes) rest), true)

drop-nil : (n : ℕ) → drop {A = ℕ} n [] ≡ []
drop-nil zero = refl
drop-nil (suc n) = refl

drop-cons : (n : ℕ) (x : ℕ) (xs : List ℕ) (k : ℕ) → k ≡ suc n → drop k (x ∷ xs) ≡ drop n xs
drop-cons n x xs k e = ap (λ j. drop j (x ∷ xs)) e

pub drop-drop : (n m : ℕ) (xs : List ℕ) → drop n (drop m xs) ≡ drop (m + n) xs
drop-drop n zero xs = let e : n ≡ 0 + n = omega arith in ap (λ k. drop k xs) e
drop-drop n (suc m) [] = drop-nil n ∙ sym (drop-nil (suc m + n))
drop-drop n (suc m) (x ∷ xs) =
    drop-drop n m xs ∙ sym (drop-cons (m + n) x xs (suc m + n) (omega arith))

-- Writers with the same fields are the same.
pub writer_ext :
    (w v : Writer) → w.contents ≡ v.contents → w.size ≡ v.size → w.offset ≡ v.offset → w ≡ v
writer_ext w v p q r i = record { contents = p i; size = q i; offset = r i }

overwrite-at :
    (bytes filled rest : List ℕ)
    → overwrite (filled ++ rest) (length filled) bytes
      ≡ (filled ++ bytes) ++ drop (length bytes) rest
overwrite-at bytes filled rest =
    ap₂ (λ (xs ys : List ℕ). xs ++ (bytes ++ ys)) (take-append filled rest)
      (sym (drop-drop (length bytes) (length filled) (filled ++ rest))
        ∙ ap (drop (length bytes)) (drop-append filled rest))
    ∙ sym (append_assoc filled bytes (drop (length bytes) rest))

room_left :
    (bytes filled rest : List ℕ)
    → length bytes ≤ length rest
    → length filled + length rest ≡ length (filled ++ bytes) + length (drop (length bytes) rest)
room_left bytes filled rest fits =
    omega (arith, length-append filled bytes, length-drop (length bytes) rest)

pub write_bytes-Writes : (bytes : List ℕ) → Writes (write_bytes bytes) bytes
unfolding write_bytes
write_bytes-Writes bytes = record {
  wrote = λ filled rest fits.
      let guard : (ltb (length filled + length rest) (length filled)
            || ltb (length filled + length rest - length filled) (length bytes))
          ≡ false =
        ground arith in
      rw guard (
        ap (λ w. (w, true))
          (writer_ext _ _ (overwrite-at bytes filled rest) (room_left bytes filled rest fits)
            (sym (length-append filled bytes))));
}

pub write_u8-Writes : (v : ℕ) → Writes (write_u8 v) (bytes_u8 v)
unfolding write_u8
write_u8-Writes v = write_bytes-Writes (bytes_u8 v)

-- A cast to a byte before the write does not change what is written.
pub write_u8-u8 : (v : ℕ) → Writes (write_u8 (u8 v)) (bytes_u8 v)
write_u8-u8 v =
    let twice : u8 (u8 v) ≡ u8 v = omega arith in
    subst (λ (b : ℕ). Writes (write_u8 (u8 v)) (b ∷ [])) twice (write_u8-Writes (u8 v))

pub write_u16-Writes : (v : ℕ) → Writes (write_u16 v) (bytes_u16 v)
unfolding write_u16
write_u16-Writes v = write_bytes-Writes (bytes_u16 v)

pub write_u32-Writes : (v : ℕ) → Writes (write_u32 v) (bytes_u32 v)
unfolding write_u32
write_u32-Writes v = write_bytes-Writes (bytes_u32 v)

writer_at-append :
    (a b filled rest : List ℕ)
    → writer_at ((filled ++ a) ++ b) (drop (length b) (drop (length a) rest))
      ≡ writer_at (filled ++ (a ++ b)) (drop (length (a ++ b)) rest)
writer_at-append a b filled rest =
    ap₂ writer_at (append_assoc filled a b)
      (drop-drop (length b) (length a) rest ∙ ap (λ n. drop n rest) (sym (length-append a b)))

-- Writes one after another put their bytes one after another.
infixr 35 ◌wrote_then◌
pub ◌wrote_then◌ :
    {s t : Step} {a b : List ℕ} → Writes s a → Writes t b → Writes (s then_write t) (a ++ b)
◌wrote_then◌ {s} {t} {a} {b} ws wt = record {
  wrote = λ filled rest fits. rw (ws.wrote filled rest (omega (arith, length-append a b))) (
      wt.wrote (filled ++ a) (drop (length a) rest)
        (omega (arith, length-append a b, length-drop (length a) rest))
      ∙ ap (λ w. (w, true)) (writer_at-append a b filled rest));
}
