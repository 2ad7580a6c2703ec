-- ===== src/Shell/Moves.antt =====
-- The operations of the line buffer behind the keys of src/ml_shell.c move and edit at the cursor.
use monolinux_c_library.Prelude.{
  append-nil, ℕ, ◌+◌, ◌-◌, ◌≡◌, refl, ap, sym, ◌∙◌, [], ◌∷◌, ◌++◌, true, false, get_or, length,
  length-append, append_assoc, arith, ◌==◌, ltb,
}
use monolinux_c_library.Prelude.Int.{pos, negsuc}
use monolinux_c_library.Prelude.Text.{Text}
use monolinux_c_library.Shell.Line.{
  Line, line_delete, line_peek, line_seek, line_seek_begin, line_seek_end,
}
use monolinux_c_library.Shell.Zipper.{Shows}
use monolinux_c_library.Shell.Editing.{backwards, onto, At}

pub length-backwards : (before : Text) → length (backwards before) ≡ length before
length-backwards [] = refl
length-backwards (a ∷ before) =
    omega (arith, length-append {0} (backwards before) (a ∷ []), length-backwards before)

pub backwards-onto : (back before : Text) → backwards (onto before back) ≡ backwards before ++ back
backwards-onto [] before = sym (append-nil (backwards before))
backwards-onto (b ∷ back) before =
    backwards-onto back (b ∷ before) ∙ append_assoc (backwards before) (b ∷ []) back

-- The cursor moves inside the same text.
moved :
    (self : Line) (front back front' back' : Text) (n : ℕ)
    → Shows self front back
    → front' ++ back' ≡ front ++ back
    → n ≡ length front'
    → Shows (record self { cursor = n }) front' back'
moved self front back front' back' n v e c = record {
  rest = v.rest;
  buf =
      v.buf
      ∙ sym (append_assoc front back (0 ∷ v.rest))
      ∙ ap (λ l. l ++ (0 ∷ v.rest)) (sym e)
      ∙ append_assoc front' back' (0 ∷ v.rest);
  size = v.size;
  cursor = c;
  end =
      omega
        (arith, v.end, ap length e, length-append {0} front back, length-append {0} front' back');
}

pub seek_left :
    (self : Line) (a : ℕ) (before back : Text)
    → At self (a ∷ before) back
    → ((line_seek self (negsuc 0)).1 ≡ true) × At (line_seek self (negsuc 0)).0 before (a ∷ back)
unfolding line_seek
seek_left self a before back v =
    let room : ltb self.cursor 1 ≡ false =
      ground (arith, v.cursor, length-backwards (a ∷ before)) in
    rw room (
      refl,
      moved self (backwards (a ∷ before)) back (backwards before) (a ∷ back) (self.cursor - 1) v
          (sym (append_assoc (backwards before) (a ∷ []) back))
          (omega (arith, v.cursor, length-append {0} (backwards before) (a ∷ []))),
    )

pub seek_left_nil :
    (self : Line) (back : Text) → At self [] back → line_seek self (negsuc 0) ≡ (self, false)
unfolding line_seek
seek_left_nil self back v =
    let room : ltb self.cursor 1 ≡ true = ground (arith, v.cursor) in rw room refl

pub seek_right :
    (self : Line) (b : ℕ) (before back : Text)
    → At self before (b ∷ back)
    → At (line_seek self (pos 1)).0 (b ∷ before) back
unfolding line_seek
seek_right self b before back v =
    let room : ltb self.length (self.cursor + 1) ≡ false = ground (arith, v.cursor, v.end) in
    rw room (
      moved self (backwards before) (b ∷ back) (backwards (b ∷ before)) back (self.cursor + 1) v
        (append_assoc (backwards before) (b ∷ []) back)
        (omega (arith, v.cursor, length-append {0} (backwards before) (b ∷ []))))

pub seek_right_nil :
    (self : Line) (before : Text) → At self before [] → (line_seek self (pos 1)).0 ≡ self
unfolding line_seek
seek_right_nil self before v =
    let room : ltb self.length (self.cursor + 1) ≡ true = ground (arith, v.cursor, v.end) in
    rw room refl

pub seek_begin :
    (self : Line) (before back : Text)
    → At self before back
    → At (line_seek_begin self) [] (backwards before ++ back)
unfolding line_seek_begin
seek_begin self before back v = moved self (backwards before) back [] _ 0 v refl refl

pub seek_end :
    (self : Line) (before back : Text)
    → At self before back
    → At (line_seek_end self) (onto before back) []
unfolding line_seek_end
seek_end self before back v = rw (backwards-onto back before) (
    moved self (backwards before) back (backwards before ++ back) [] self.length v
      (append-nil (backwards before ++ back))
      (omega (arith, v.end, length-append {0} (backwards before) back)))

peek_append :
    (front : Text) (b : ℕ) (more : Text) → get_or (front ++ (b ∷ more)) (length front) 0 ≡ b
peek_append [] b more = refl
peek_append (a ∷ front) b more = peek_append front b more

pub peek :
    (self : Line) (b : ℕ) (before back : Text) → At self before (b ∷ back) → line_peek self ≡ b
unfolding line_peek
peek self b before back v =
    rw (v.buf, v.cursor) (peek_append (backwards before) b (back ++ (0 ∷ v.rest)))

pub peek_nil : (self : Line) (before : Text) → At self before [] → line_peek self ≡ 0
unfolding line_peek
peek_nil self before v = rw (v.buf, v.cursor) (peek_append (backwards before) 0 v.rest)

pub delete_nil : (self : Line) (before : Text) → At self before [] → line_delete self ≡ self
unfolding line_delete
delete_nil self before v =
    let end : (self.cursor == self.length) ≡ true = ground (arith, v.cursor, v.end) in rw end refl
