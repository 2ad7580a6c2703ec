-- ===== src/Shell/Zipper.antt =====
-- The line buffer stands for the text before the cursor and the text behind it.
use monolinux_c_library.Prelude.{
  append-nil, Bool-cases, inl, inr, ◌⊎◌, ℕ, suc, ◌+◌, ◌-◌, ◌≡◌, ◌<◌, refl, ap, ap₂, sym, ◌∙◌, List,
  [], ◌∷◌, ◌++◌, true, false, take, drop, set, length, length-append, drop-length_append,
  append_assoc, arith, ◌==◌,
}
use monolinux_c_library.Shell.Line.{
  Line, command_max, memmove, line_insert, line_insert_string, line_delete,
}

-- The buffer holds both texts and a NUL, and the counters fit.
pub record Shows (self : Line) (front back : List ℕ) : Type 0 where
  pub rest : List ℕ
  pub buf : self.buf ≡ front ++ (back ++ (0 ∷ rest))
  pub size : length self.buf ≡ command_max
  pub cursor : self.cursor ≡ length front
  pub end : self.length ≡ length front + length back

memmove-suc :
    (x : ℕ) (buf : List ℕ) (to from n : ℕ)
    → memmove (x ∷ buf) (suc to) (suc from) n ≡ x ∷ memmove buf to from n
memmove-suc x buf to from n =
    let e : suc to + n ≡ suc (to + n) = omega arith in
    ap (λ k. x ∷ (take to buf ++ (take n (drop from buf) ++ drop k (x ∷ buf)))) e

take_terminated : (back t : List ℕ) → take (suc (length back)) (back ++ (0 ∷ t)) ≡ back ++ (0 ∷ [])
take_terminated [] t = refl
take_terminated (x ∷ back) t = ap (λ l. x ∷ l) (take_terminated back t)

drop_terminated :
    (back t : List ℕ) (r : ℕ) → drop (suc (suc (length back))) (back ++ (0 ∷ r ∷ t)) ≡ t
drop_terminated [] t r = refl
drop_terminated (x ∷ back) t r = drop_terminated back t r

set_first :
    (back t more : List ℕ) (ch : ℕ) → set (take 1 (back ++ (0 ∷ t)) ++ more) 0 ch ≡ ch ∷ more
set_first [] t more ch = refl
set_first (x ∷ back) t more ch = refl

insert_buf :
    (front back rest : List ℕ) (ch r : ℕ)
    → set
        (memmove
          (front ++ (back ++ (0 ∷ r ∷ rest)))
          (suc (length front))
          (length front)
          (suc (length back)))
        (length front)
        ch
      ≡ front ++ (ch ∷ (back ++ (0 ∷ rest)))
insert_buf [] back rest ch r =
    let e : 1 + suc (length back) ≡ suc (suc (length back)) = omega arith in
    set_first back (r ∷ rest) _ ch
    ∙ ap (λ l. ch ∷ l)
        (ap₂ ◌++◌ (take_terminated back (r ∷ rest))
            (ap (λ k. drop k (back ++ (0 ∷ r ∷ rest))) e ∙ drop_terminated back rest r)
          ∙ append_assoc back (0 ∷ []) rest)
insert_buf (x ∷ front) back rest ch r =
    ap (λ l. set l (suc (length front)) ch)
      (memmove-suc x (front ++ (back ++ (0 ∷ r ∷ rest))) (suc (length front)) (length front)
        (suc (length back)))
    ∙ ap (λ l. x ∷ l) (insert_buf front back rest ch r)

delete_buf :
    (front back rest : List ℕ) (b : ℕ)
    → memmove
        (front ++ (b ∷ (back ++ (0 ∷ rest))))
        (length front)
        (suc (length front))
        (suc (length back))
      ≡ front ++ (back ++ (0 ∷ 0 ∷ rest))
delete_buf [] back rest b =
    let e : 0 + suc (length back) ≡ suc (length back) = omega arith in
    ap₂ ◌++◌ (take_terminated back rest)
      (ap (λ k. drop k (b ∷ (back ++ (0 ∷ rest)))) e ∙ drop-length_append back (0 ∷ rest))
    ∙ append_assoc back (0 ∷ []) (0 ∷ rest)
delete_buf (x ∷ front) back rest b =
    memmove-suc x (front ++ (b ∷ (back ++ (0 ∷ rest)))) (length front) (suc (length front))
      (suc (length back))
    ∙ ap (λ l. x ∷ l) (delete_buf front back rest b)

pub length-shown :
    (front back rest : List ℕ)
    → length (front ++ (back ++ (0 ∷ rest))) ≡ length front + length back + suc (length rest)
length-shown front back rest =
    omega (arith, length-append {0} front (back ++ (0 ∷ rest)), length-append {0} back (0 ∷ rest))

insert_with :
    (front back rest buf : List ℕ) (ch r to from n : ℕ)
    → buf ≡ front ++ (back ++ (0 ∷ r ∷ rest))
    → to ≡ suc (length front)
    → from ≡ length front
    → n ≡ suc (length back)
    → set (memmove buf to from n) from ch ≡ (front ++ (ch ∷ [])) ++ (back ++ (0 ∷ rest))
insert_with front back rest buf ch r to from n b t f e =
    rw (b, t, f, e) (insert_buf front back rest ch r)
    ∙ sym (append_assoc front (ch ∷ []) (back ++ (0 ∷ rest)))

inserted :
    (self : Line) (front back rest : List ℕ) (ch : ℕ)
    → self.buf ≡ front ++ (back ++ (0 ∷ rest))
    → length self.buf ≡ command_max
    → self.cursor ≡ length front
    → self.length ≡ length front + length back
    → (self.length == command_max - 1) ≡ false
    → ((line_insert self ch).1 ≡ true) × Shows (line_insert self ch).0 (front ++ (ch ∷ [])) back
unfolding line_insert
inserted self front back [] ch b s c e h =
    absurd (ground (arith, ap length b, length-shown front back []))
inserted self front back (r ∷ rest) ch b s c e h =
    let moved =
      insert_with front back rest self.buf ch r (self.cursor + 1) self.cursor
        (self.length - self.cursor + 1) b (omega arith) c (omega arith) in
    simp h (
      refl,
      record {
        rest = rest;
        buf = moved;
        size =
            ap length moved
            ∙ omega (
              arith,
              length-shown (front ++ (ch ∷ [])) back rest,
              length-shown front back (r ∷ rest),
              length-append {0} front (ch ∷ []),
              ap length b,
            );
        cursor = omega (arith, length-append {0} front (ch ∷ []));
        end = omega (arith, length-append {0} front (ch ∷ []));
      },
    )

-- A character is inserted before the cursor, which moves behind it, and all else is kept; only a
-- line of 255 characters takes no more, and is left as it was.
pub line_insert_lem :
    (self : Line) (front back : List ℕ) (ch : ℕ)
    → Shows self front back
    → ((length front + length back ≡ command_max - 1) × (line_insert self ch ≡ (self, false)))
      ⊎ (((line_insert self ch).1 ≡ true) × Shows (line_insert self ch).0 (front ++ (ch ∷ [])) back)
unfolding line_insert
line_insert_lem self front back ch v = elim (Bool-cases (self.length == command_max - 1)) [
  | inl p ↦ inl (ground arith, simp p refl)
  | inr p ↦ inr (inserted self front back v.rest ch v.buf v.size v.cursor v.end p)
]

delete_with :
    (front back rest buf : List ℕ) (b to from n : ℕ)
    → buf ≡ front ++ (b ∷ (back ++ (0 ∷ rest)))
    → to ≡ length front
    → from ≡ suc (length front)
    → n ≡ suc (length back)
    → memmove buf to from n ≡ front ++ (back ++ (0 ∷ 0 ∷ rest))
delete_with front back rest buf b to from n e t f h = rw (e, t, f, h) (delete_buf front back rest b)

-- The character behind the cursor is deleted, and all else is kept.
pub line_delete_lem :
    (self : Line) (front back : List ℕ) (b : ℕ)
    → Shows self front (b ∷ back)
    → Shows (line_delete self) front back
unfolding line_delete
line_delete_lem self front back b v =
    let moved =
      delete_with front back v.rest self.buf b self.cursor (self.cursor + 1)
        (self.length - self.cursor) v.buf v.cursor (omega (arith, v.cursor))
        (omega (arith, v.cursor, v.end)) in
    let more : (self.cursor == self.length) ≡ false = ground (arith, v.cursor, v.end) in
    simp more (record {
      rest = 0 ∷ v.rest;
      buf = moved;
      size =
          ap length moved
          ∙ omega (
            arith,
            v.size,
            length-shown front back (0 ∷ v.rest),
            length-shown front (b ∷ back) v.rest,
            ap length v.buf,
          );
      cursor = v.cursor;
      end = omega (arith, v.end);
    })

inserted_first :
    (self : Line) (ch : ℕ) (str : List ℕ)
    → (line_insert self ch).1 ≡ true
    → line_insert_string self (ch ∷ str) ≡ line_insert_string (line_insert self ch).0 str
unfolding line_insert_string
inserted_first self ch str e = rw e refl

-- A text that fits is inserted whole before the cursor.
pub line_insert_string_lem :
    (str : List ℕ) (self : Line) (front back : List ℕ)
    → Shows self front back
    → length front + length back + length str < command_max
    → Shows (line_insert_string self str) (front ++ str) back
line_insert_string_lem [] self front back v h =
    rw (append-nil front) (unfold line_insert_string in v)
line_insert_string_lem (ch ∷ str) self front back v h =
    elim (line_insert_lem self front back ch v) [
      | inl (full, e) ↦ absurd (omega arith)
      | inr (e, w) ↦
          rw (inserted_first self ch str e, sym (append_assoc front (ch ∷ []) str))
            (line_insert_string_lem str (line_insert self ch).0 (front ++ (ch ∷ [])) back w
              (omega (arith, length-append {0} front (ch ∷ []))))
    ]
