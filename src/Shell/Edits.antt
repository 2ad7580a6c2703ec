-- ===== src/Shell/Edits.antt =====
-- The handlers of the editing keys of src/ml_shell.c are the edits of a text with a cursor.
use monolinux_c_library.Prelude.{
  ℕ, zero, suc, ◌+◌, ◌-◌, ◌≡◌, ◌≤◌, refl, ap, sym, ◌∙◌, [], ◌∷◌, ◌++◌, Bool, true, false,
  Bool-cases, inl, inr, set, length, length-append, arith, ◌==◌, ltb,
}
use monolinux_c_library.Prelude.Int.{negsuc}
use monolinux_c_library.Prelude.Text.{Text}
use monolinux_c_library.Shell.Line.{
  Line, command_max, line_insert, line_delete, line_truncate, line_seek,
}
use monolinux_c_library.Shell.Zipper.{Shows, line_insert_lem, line_delete_lem, length-shown}
use monolinux_c_library.Shell.Keys.{
  handle_backspace, handle_ctrl_t, swap, delete_while, delete_word, is_blank, in_word,
}
use monolinux_c_library.Shell.Editing.{
  backwards, drop_while, edit, insert, At, backspace, transpose, word,
}
use monolinux_c_library.Shell.Moves.{
  length-backwards, seek_left, seek_left_nil, seek_right, peek, peek_nil,
}

set_append :
    (front more : Text) (b : ℕ) → set (front ++ (b ∷ more)) (length front) 0 ≡ front ++ (0 ∷ more)
set_append [] more b = refl
set_append (a ∷ front) more b = ap (λ l. a ∷ l) (set_append front more b)

fits : (self : Line) (front back : Text) → Shows self front back → length front + length back ≤ 255
fits self front back v = omega (arith, length-shown front back v.rest, ap length v.buf, v.size)

pub truncate :
    (self : Line) (before back : Text) → At self before back → At (line_truncate self) before []
unfolding line_truncate
truncate self before [] v = record {
  rest = v.rest;
  buf = rw (v.buf, v.cursor) (set_append (backwards before) v.rest 0);
  size =
      rw (v.buf, v.cursor, set_append (backwards before) v.rest 0) (ap length (sym v.buf) ∙ v.size);
  cursor = v.cursor;
  end = omega (arith, v.cursor);
}
truncate self before (b ∷ back) v = record {
  rest = back ++ (0 ∷ v.rest);
  buf = rw (v.buf, v.cursor) (set_append (backwards before) (back ++ (0 ∷ v.rest)) b);
  size =
      rw (v.buf, v.cursor, set_append (backwards before) (back ++ (0 ∷ v.rest)) b)
        (omega (
          arith,
          length-append {0} (backwards before) (0 ∷ (back ++ (0 ∷ v.rest))),
          length-append {0} (backwards before) (b ∷ (back ++ (0 ∷ v.rest))),
          ap length v.buf,
          v.size,
        ));
  cursor = v.cursor;
  end = omega (arith, v.cursor);
}

pub erase_before :
    (self : Line) (before back : Text)
    → At self before back
    → At (handle_backspace self) (edit backspace before back).0 (edit backspace before back).1
unfolding handle_backspace edit
erase_before self [] back v = rw (seek_left_nil self back v) v
erase_before self (a ∷ before) back v =
    let (e, w) = seek_left self a before back v in
    rw e (line_delete_lem (line_seek self (negsuc 0)).0 (backwards before) back a w)

pub inserted-At :
    (self : Line) (ch : ℕ) (before back : Text)
    → At self before back
    → At (line_insert self ch).0 (insert ch before back).0 (insert ch before back).1
inserted-At self ch before back v = elim (line_insert_lem self (backwards before) back ch v) [
  | inl (full, e) ↦
      let p : (length before + length back == command_max - 1) ≡ true =
        ground (arith, length-backwards before) in
      rw (p, ap (λ x. x.0) e) v
  | inr (e, w) ↦
      let p : (length before + length back == command_max - 1) ≡ false = ground (
        arith,
        fits (line_insert self ch).0 (backwards (ch ∷ before)) back w,
        length-backwards before,
        length-append {0} (backwards before) (ch ∷ []),
      ) in
      rw p w
]

inserted_room :
    (self : Line) (ch : ℕ) (before back : Text)
    → At self before back
    → length before + length back ≤ 254
    → At (line_insert self ch).0 (ch ∷ before) back
inserted_room self ch before back v h =
    let p : (length before + length back == command_max - 1) ≡ false = ground arith in
    rw p at (inserted-At self ch before back v)

swapped :
    (self : Line) (a b : ℕ) (before back : Text)
    → At self (a ∷ before) (b ∷ back)
    → At (swap self) (a ∷ b ∷ before) back
swapped self a b before back v =
    let deleted = line_delete_lem self (backwards (a ∷ before)) back b v in
    let (e, w) = seek_left (line_delete self) a before back deleted in
    let self' = (line_seek (line_delete self) (negsuc 0)).0 in
    let room = fits self (backwards (a ∷ before)) (b ∷ back) v in
    rw (peek self b (a ∷ before) back v, swap)
      (seek_right (line_insert self' b).0 a (b ∷ before) back (
        inserted_room self' b before (a ∷ back) w
          (omega (arith, room, length-backwards (a ∷ before)))))

pub exchange :
    (self : Line) (before back : Text)
    → At self before back
    → At (handle_ctrl_t self) (edit transpose before back).0 (edit transpose before back).1
unfolding handle_ctrl_t edit
exchange self [] back v =
    let start : (self.cursor == 0) ≡ true = ground (arith, v.cursor) in rw start v
exchange self (a ∷ []) [] v =
    let start : (self.cursor == 0) ≡ false = ground (arith, v.cursor) in
    let few : ltb self.length 2 ≡ true = ground (arith, v.end) in rw (start, few) v
exchange self (b ∷ a ∷ before) [] v =
    let l = length-backwards (b ∷ a ∷ before) in
    let start : (self.cursor == 0) ≡ false = ground (arith, v.cursor, l) in
    let few : ltb self.length 2 ≡ false = ground (arith, v.end, l) in
    let end : (self.cursor == self.length) ≡ true = ground (arith, v.cursor, v.end) in
    let (e, w) = seek_left self b (a ∷ before) [] v in
    rw (start, few, end) (swapped (line_seek self (negsuc 0)).0 a b before [] w)
exchange self (a ∷ before) (b ∷ back) v =
    let l = length-backwards (a ∷ before) in
    let start : (self.cursor == 0) ≡ false = ground (arith, v.cursor, l) in
    let few : ltb self.length 2 ≡ false = ground (arith, v.end, l) in
    let end : (self.cursor == self.length) ≡ false = ground (arith, v.cursor, v.end) in
    rw (start, few, end) (swapped self a b before back v)

delete_while_lem :
    (test : ℕ → Bool) (back before : Text) (rounds : ℕ) (self : Line)
    → test 0 ≡ false
    → length back ≤ rounds
    → At self before back
    → At (delete_while rounds test self) before (drop_while test back)
unfolding delete_while drop_while
delete_while_lem test [] before zero self t h v = v
delete_while_lem test [] before (suc rounds) self t h v = rw (peek_nil self before v, t) v
delete_while_lem test (b ∷ back) before zero self t h v = absurd (omega arith)
delete_while_lem test (b ∷ back) before (suc rounds) self t h v =
    let deleted = line_delete_lem self (backwards before) back b v in
    let rest =
      delete_while_lem test back before rounds (line_delete self) t (omega arith) deleted in
    rw (peek self b before back v) elim (Bool-cases (test b)) [ inl p ↦ rw p rest | inr p ↦ rw p v ]

pub word_deleted :
    (self : Line) (before back : Text)
    → At self before back
    → At (delete_word self) (edit word before back).0 (edit word before back).1
unfolding delete_word edit
word_deleted self before back v =
    let blanks =
      delete_while_lem is_blank back before self.length self refl (omega (arith, v.end)) v in
    let self' = delete_while self.length is_blank self in
    delete_while_lem in_word (drop_while is_blank back) before self'.length self' refl
      (omega (arith, blanks.end)) blanks
