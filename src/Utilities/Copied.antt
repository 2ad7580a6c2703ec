-- ===== src/Utilities/Copied.antt =====
-- What ml_dd of src/ml.c copies.
use monolinux_c_library.Prelude.{
  ℕ, zero, suc, ◌+◌, ◌-◌, ◌≡◌, ◌≤◌, ◌<◌, ◌⊎◌, inl, inr, refl, sym, ap, ◌∙◌, List, [], ◌∷◌, ◌++◌,
  append-nil, append_assoc, length, length-append, some, true, false, Bool-cases, ltb, take,
  take-all, if◌then◌else◌, arith,
}
use monolinux_c_library.Prelude.Int.{ℤ, pos, negsuc, is_zero, is_failed, minus}
use monolinux_c_library.Utilities.Dd.{
  Call, open_input, open_output, malloc, read, write, close, free, Answer, Trace, size_result, call,
  dd_copy_chunk, dd_loop, dd_end, dd,
}

-- All bytes that were read, and all that write() has accepted: as many as its result says, and none
-- if it fails.
abbrev pub accepted : ℤ → List ℕ → List ℕ
accepted (pos n) buf = take n buf
accepted (negsuc e) buf = []

abbrev pub bytes_read : Trace → List ℕ
bytes_read [] = []
bytes_read ((open_input, a) ∷ tr) = bytes_read tr
bytes_read ((open_output, a) ∷ tr) = bytes_read tr
bytes_read ((malloc size, a) ∷ tr) = bytes_read tr
bytes_read ((read fd size, a) ∷ tr) = bytes_read tr ++ a.content
bytes_read ((write fd buf, a) ∷ tr) = bytes_read tr
bytes_read ((close fd, a) ∷ tr) = bytes_read tr
bytes_read ((free, a) ∷ tr) = bytes_read tr

abbrev pub bytes_written : Trace → List ℕ
bytes_written [] = []
bytes_written ((open_input, a) ∷ tr) = bytes_written tr
bytes_written ((open_output, a) ∷ tr) = bytes_written tr
bytes_written ((malloc size, a) ∷ tr) = bytes_written tr
bytes_written ((read fd size, a) ∷ tr) = bytes_written tr
bytes_written ((write fd buf, a) ∷ tr) = bytes_written tr ++ accepted a.res buf
bytes_written ((close fd, a) ∷ tr) = bytes_written tr
bytes_written ((free, a) ∷ tr) = bytes_written tr

-- A call that fails sets `errno`, and read() results in the number of bytes that it read.
pub record IsKernel (answer : Trace → Call → Answer) : Type 0 where
  pub errno : (tr : Trace) (c : Call) → is_failed (answer tr c).res ≡ true → 0 < (answer tr c).errno
  pub size :
      (tr : Trace) (fd : ℤ) (n k : ℕ)
      → (answer tr (read fd n)).res ≡ pos k
      → length (answer tr (read fd n)).content ≡ k

-- Between two traces the bytes that were read were written, and so many.
pub record Copies (size : ℕ) (tr tr' : Trace) : Type 0 where
  pub copied : List ℕ
  pub read_all : bytes_read tr' ≡ bytes_read tr ++ copied
  pub written_all : bytes_written tr' ≡ bytes_written tr ++ copied
  pub size_all : length copied ≡ size

-- A result of 0 means that so many bytes were copied.
abbrev pub IsCopied : ℕ → Trace → Trace × ℤ → Type 0
IsCopied size tr (tr', res) = (is_zero res ≡ false) ⊎ Copies size tr tr'

size_result_zero :
    (chunk_size : ℕ) (a : Answer)
    → (is_failed a.res ≡ true → 0 < a.errno)
    → is_zero (size_result chunk_size a) ≡ true
    → a.res ≡ pos chunk_size
unfolding size_result
size_result_zero chunk_size a k h = ground arith

minus-negative : (e : ℕ) → 0 < e → is_zero (minus e) ≡ false
minus-negative zero h = absurd (omega arith)
minus-negative (suc e) h = refl

-- From a trace with the same reads and writes.
opened :
    (size : ℕ) (tr tr' : Trace) (r : Trace × ℤ)
    → bytes_read tr ≡ bytes_read tr'
    → bytes_written tr ≡ bytes_written tr'
    → IsCopied size tr' r
    → IsCopied size tr r
opened size tr tr' r e f (inl p) = inl p
opened size tr tr' r e f (inr c) = inr (record {
  copied = c.copied;
  read_all = rw e c.read_all;
  written_all = rw f c.written_all;
  size_all = c.size_all;
})

size-bounds :
    (total_size chunk_size : ℕ)
    → 0 < chunk_size
    → let size = if ltb (suc total_size) chunk_size then suc total_size else chunk_size in
      (0 < size) × (size ≤ suc total_size)
size-bounds total_size chunk_size c = ground arith

module _ (answer : Trace → Call → Answer) (kernel : IsKernel answer) where
  chunk-IsCopied :
      (size : ℕ) (fdin fdout : ℤ) (tr : Trace)
      → IsCopied size tr (dd_copy_chunk answer size fdin fdout tr)
  unfolding dd_copy_chunk call
  chunk-IsCopied size fdin fdout tr =
      let got = answer tr (read fdin size) in
      let tr1 = call answer (read fdin size) tr in
      let put = answer tr1 (write fdout got.content) in
      elim (Bool-cases (is_zero (size_result size got))) [
        | inr p ↦ rw p (inl p)
        | inl p ↦
            let full =
              kernel.size tr fdin size size
                (size_result_zero size got (kernel.errno tr (read fdin size)) p) in
            elim (Bool-cases (is_zero (size_result size put))) [
              | inr q ↦ rw (p, q) (inl refl)
              | inl q ↦
                  let sent =
                    size_result_zero size put (kernel.errno tr1 (write fdout got.content)) q in
                  rw (p, q)
                    (inr (record {
                      copied = got.content;
                      read_all = refl;
                      written_all =
                          ap (λ l. bytes_written tr ++ l)
                            (ap (λ res. accepted res got.content) sent
                              ∙ take-all size got.content (omega (arith, full)));
                      size_all = full;
                    }))
            ]
      ]

  Copies-trans :
      {m n k : ℕ} {tr tr' tr'' : Trace}
      → Copies m tr tr'
      → Copies n tr' tr''
      → m + n ≡ k
      → Copies k tr tr''
  Copies-trans a b e = record {
    copied = a.copied ++ b.copied;
    read_all = b.read_all ∙ ap (λ l. l ++ b.copied) a.read_all ∙ append_assoc _ a.copied b.copied;
    written_all =
        b.written_all ∙ ap (λ l. l ++ b.copied) a.written_all ∙ append_assoc _ a.copied b.copied;
    size_all = omega (arith, length-append {0} a.copied b.copied, a.size_all, b.size_all);
  }

  all :
      (size total_size : ℕ) (tr tr' : Trace) (res : ℤ) (r : Trace × ℤ)
      → is_zero res ≡ true
      → IsCopied size tr (tr', res)
      → IsCopied (total_size - size) tr' r
      → size ≤ total_size
      → IsCopied total_size tr r
  all size total_size tr tr' res r p (inl q) rest b = absurd (ground arith)
  all size total_size tr tr' res r p (inr one) (inl q) b = inl q
  all size total_size tr tr' res r p (inr one) (inr more) b =
      inr (Copies-trans one more (omega arith))

  loop-IsCopied :
      (rounds total_size chunk_size : ℕ) (fdin fdout : ℤ) (tr : Trace)
      → 0 < chunk_size
      → total_size ≤ rounds
      → (r : Trace × ℤ) × (dd_loop answer rounds total_size chunk_size fdin fdout tr ≡ some r)
        × IsCopied total_size tr r
  unfolding dd_loop
  loop-IsCopied rounds zero chunk_size fdin fdout tr c h = (
    (tr, pos 0),
    refl,
    inr (record {
      copied = [];
      read_all = sym (append-nil (bytes_read tr));
      written_all = sym (append-nil (bytes_written tr));
      size_all = refl;
    }),
  )
  loop-IsCopied zero (suc total_size) chunk_size fdin fdout tr c h = absurd (omega arith)
  loop-IsCopied (suc rounds) (suc total_size) chunk_size fdin fdout tr c h =
      let size = if ltb (suc total_size) chunk_size then suc total_size else chunk_size in
      let bounds = size-bounds total_size chunk_size c in
      let (tr', res) = dd_copy_chunk answer size fdin fdout tr in
      elim (Bool-cases (is_zero (dd_copy_chunk answer size fdin fdout tr).1)) [
        | inr p ↦ rw p ((tr', res), refl, inl p)
        | inl p ↦
            let (r, run, rest) =
              loop-IsCopied rounds (suc total_size - size) size fdin fdout tr' bounds.0
                (omega (arith, bounds.0)) in
            rw p (
              r,
              run,
              all size (suc total_size) tr tr' res r p (chunk-IsCopied size fdin fdout tr) rest
                  bounds.1,
            )
      ]

  end-IsCopied :
      (size : ℕ) (fdin fdout : ℤ) (tr : Trace) (r : Trace × ℤ)
      → IsCopied size tr r
      → (r' : Trace × ℤ) × (dd_end answer fdin fdout (some r) ≡ some r') × IsCopied size tr r'
  unfolding call
  end-IsCopied size fdin fdout tr (tr', res) (inl p) = rw p (_, refl, inl p)
  end-IsCopied size fdin fdout tr (tr', res) (inr c) = elim (Bool-cases (is_zero res)) [
    | inr p ↦ rw p (_, refl, inl p)
    | inl p ↦ rw p (
      _,
      refl,
      inr (record {
        copied = c.copied;
        read_all = c.read_all;
        written_all = c.written_all;
        size_all = c.size_all;
      }),
    )
  ]

  -- Where chunks are not empty, each call that fails sets `errno`, and read() results in the number
  -- of bytes read, ml_dd ends within as many rounds as there are bytes to copy, and if its result is
  -- 0 it has read just so many bytes, and write() has accepted just these, in their order.
  pub dd-IsCopied :
      (total_size chunk_size : ℕ) (tr : Trace)
      → 0 < chunk_size
      → (r : Trace × ℤ) × (dd answer total_size total_size chunk_size tr ≡ some r)
        × IsCopied total_size tr r
  unfolding dd call
  dd-IsCopied total_size chunk_size tr c =
      let input = answer tr open_input in
      let tr1 = call answer open_input tr in
      let output = answer tr1 open_output in
      let tr2 = call answer open_output tr1 in
      let buf = answer tr2 (malloc chunk_size) in
      let tr3 = call answer (malloc chunk_size) tr2 in
      elim (Bool-cases (is_failed input.res)) [
        | inl p ↦ rw p (_, refl, inl (minus-negative input.errno (kernel.errno tr open_input p)))
        | inr p ↦ elim (Bool-cases (is_failed output.res)) [
          | inl q ↦
              rw (p, q)
                (_, refl, inl (minus-negative output.errno (kernel.errno tr1 open_output q)))
          | inr q ↦ elim (Bool-cases (is_failed buf.res)) [
            | inl s ↦
                rw (p, q, s)
                  (_, refl, inl (minus-negative buf.errno (kernel.errno tr2 (malloc chunk_size) s)))
            | inr s ↦
                let (r, run, copied) =
                  loop-IsCopied total_size total_size chunk_size input.res output.res tr3 c
                    (omega arith) in
                let (r', end, all') = end-IsCopied total_size input.res output.res tr3 r copied in
                rw (p, q, s, run) (r', end, opened total_size tr tr3 r' refl refl all')
          ]
        ]
      ]
