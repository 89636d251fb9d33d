-- ===== src/Buffer/Contents.antt =====
-- The bytes of a `Buffer` that are written and not yet read, and its indices' invariant.
use libpotato.Base.{
  ℕ, ◌+◌, ◌-◌, ◌≤◌, ◌≡◌, ap, ◌∙◌, List, ◌++◌, length, take, drop, length-take, length-drop,
  length-replicate, take_all, take-append_left, take-append_right, drop-append_left, drop-take,
  drop-drop, take-take_le, arith,
}
use libpotato.Buffer.{Buffer, init, max_size}

-- The bytes between two indices.
abbrev pub window : List ℕ → ℕ → ℕ → List ℕ
window buf r w = take (w - r) (drop r buf)

abbrev pub contents : Buffer → List ℕ
contents b = window b.buf b.cur_read_index b.cur_write_index

-- The read index is not past the write index, which is not past the end of the vector.
pub record IsValid (b : Buffer) : Type 0 where
  pub read_in : b.cur_read_index ≤ b.cur_write_index
  pub write_in : b.cur_write_index ≤ length b.buf
  pub small : length b.buf ≤ max_size

pub init-IsValid : IsValid init
unfolding init
init-IsValid = record {
  read_in = omega arith;
  write_in = omega arith;
  small = omega (arith, length-replicate {A = ℕ} 4096 0);
}

pub length-window :
    (buf : List ℕ) (r w : ℕ) → r ≤ w → w ≤ length buf → length (window buf r w) ≡ w - r
length-window buf r w h k = omega (arith, length-take (w - r) (drop r buf), length-drop r buf)

pub length-contents :
    (b : Buffer) → IsValid b → length (contents b) ≡ b.cur_write_index - b.cur_read_index
length-contents b v = length-window b.buf b.cur_read_index b.cur_write_index v.read_in v.write_in

-- Bytes put at the write index come after those of the window.
pub window-append :
    (buf xs ys : List ℕ) (r w : ℕ)
    → r ≤ w
    → w ≤ length buf
    → window (take w buf ++ (xs ++ ys)) r (w + length xs) ≡ window buf r w ++ xs
window-append buf xs ys r w h k =
    ap (take (w + length xs - r)) (
      drop-append_left r (take w buf) (xs ++ ys) (omega (arith, length-take w buf))
      ∙ ap (λ t. t ++ (xs ++ ys)) (drop-take r w buf))
    ∙ take-append_right (w + length xs - r) (window buf r w) (xs ++ ys)
        (omega (arith, length-window buf r w h k))
    ∙ ap (λ t. window buf r w ++ t)
        (ap (λ n. take n (xs ++ ys)) {y = length xs} (omega (arith, length-window buf r w h k))
          ∙ take-append_left (length xs) xs ys (omega arith)
          ∙ take_all (length xs) xs (omega arith))

-- A longer vector has the same window.
pub window-grow :
    (buf ys : List ℕ) (n r w : ℕ)
    → r ≤ w
    → w ≤ length buf
    → length buf ≤ n
    → window (take n buf ++ ys) r w ≡ window buf r w
window-grow buf ys n r w h k l =
    ap (λ t. window (t ++ ys) r w) (take_all n buf l)
    ∙ ap (take (w - r)) (drop-append_left r buf ys (omega arith))
    ∙ take-append_left (w - r) (drop r buf) ys (omega (arith, length-drop r buf))

-- Bytes moved to the front of the vector are its first bytes.
pub window-front : (xs ys zs : List ℕ) → window (take 0 zs ++ (xs ++ ys)) 0 (length xs) ≡ xs
window-front xs ys zs =
    ap (λ n. take n (xs ++ ys)) {y = length xs} (omega arith)
    ∙ take-append_left (length xs) xs ys (omega arith)
    ∙ take_all (length xs) xs (omega arith)

pub take-window :
    (buf : List ℕ) (r w n : ℕ) → n ≤ w - r → take n (window buf r w) ≡ window buf r (r + n)
take-window buf r w n h =
    take-take_le n (w - r) (drop r buf) h ∙ ap (λ k. take k (drop r buf)) (omega arith)

pub drop-window : (buf : List ℕ) (r w n : ℕ) → drop n (window buf r w) ≡ window buf (r + n) w
drop-window buf r w n =
    drop-take n (w - r) (drop r buf)
    ∙ ap (λ t. take (w - r - n) t) (drop-drop n r buf)
    ∙ ap (λ k. take k (drop (r + n) buf)) (omega arith)
