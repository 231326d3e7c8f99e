-- ===== src/Logger/Days.antt =====
-- Which file a line goes to.
use gotaxy.Prelude.{
  ℕ, suc, ◌<◌, String, ◌≡◌, ◌∙◌, refl, sym, ap, subst, ◌⊎◌, Bool, true, false, ◌||◌, Option, none,
  some, List, [], ◌∷◌, ◌++◌, arith, map, All, str_eq, eq_iff, Option-cases, inl, inr, append_assoc,
  append-nil,
}
use gotaxy.Wire.{Bytes, Written, taken, succeeded}
use gotaxy.Control.Sync.{both}
use gotaxy.Logger.{
  File, stdout, opened, RollingFileWriter, new_rolling_file_writer, is_closed, open_new_file,
  should_rotate, rotate, write_file, is_nil, write,
}

-- The lines are written one after the other, each with the date of its day and with what comes of its
-- write; every file opens.
unfoldable pub write_all : List (String × Bytes × Written) → RollingFileWriter → RollingFileWriter
unfolding write
write_all [] w = w
write_all ((today, p, result) ∷ lines) w = write_all lines (write today true result p w).0

abbrev IsOlder : ℕ → File → Type 0
IsOlder n (opened i date) = i < n
IsOlder n stdout = Unit

-- The file that is written to is the newest, has the current date in its name, and was not closed.
record IsOpen (w : RollingFileWriter) : Type 0 where
  last :
      (i : ℕ) × (w.current_file ≡ some (opened i w.current_date))
      × (suc i ≡ w.next)
      × All (IsOlder i) w.closed

is_closed-IsOlder :
    (i : ℕ) (date : String) (files : List File)
    → All (IsOlder i) files
    → is_closed files (opened i date) ≡ false
unfolding is_closed
is_closed-IsOlder i date [] h = refl
is_closed-IsOlder i date (stdout ∷ files) h = is_closed-IsOlder i date files h.1
is_closed-IsOlder i date (opened j d ∷ files) h = ground (arith, is_closed-IsOlder i date files h.1)

abbrev appended : RollingFileWriter → ℕ → String → Bytes → RollingFileWriter
appended w i today p = record w { written = w.written ++ (opened i today, p) ∷ [] }

write_file-open :
    (w : RollingFileWriter) (i : ℕ) (today : String) (result : Written) (p : Bytes)
    → w.current_file ≡ some (opened i today)
    → All (IsOlder i) w.closed
    → write_file result p w ≡ (appended w i today (taken result p), succeeded result)
unfolding write_file
write_file-open w i today result p e h =
    rw (e, write_file)
      (rw (is_closed-IsOlder i today w.closed h) (
        ap
          (λ f. (
            record w {
              current_file = f;
              written = w.written ++ (opened i today, taken result p) ∷ [];
            },
            succeeded result,
          ))
          e))

-- A writer that has not begun, or one that writes.
abbrev IsReady : RollingFileWriter → Type 0
IsReady w = ((w.current_file ≡ none) × (w.closed ≡ [])) ⊎ IsOpen w

-- What a write leaves.
record IsLogged (w later : RollingFileWriter) (today : String) (p : Bytes) : Type 0 where
  going : IsOpen later
  file : (i : ℕ) × (later.written ≡ w.written ++ (opened i today, p) ∷ [])

older : (i : ℕ) (files : List File) → All (IsOlder i) files → All (IsOlder (suc i)) files
older i [] h = tt
older i (stdout ∷ files) h = (tt, older i files h.1)
older i (opened j d ∷ files) h = (omega (arith, h.0), older i files h.1)

-- A writer that has just opened a file.
begun :
    (v w : RollingFileWriter) (today : String) (result : Written) (p : Bytes)
    → v.current_file ≡ some (opened w.next today)
    → v.current_date ≡ today
    → v.next ≡ suc w.next
    → v.written ≡ w.written
    → All (IsOlder w.next) v.closed
    → IsLogged w (write_file result p v).0 today (taken result p)
begun v w today result p file date next same old =
    let wrote = write_file-open v w.next today result p file old in
    subst (λ o. IsLogged w o.0 today (taken result p)) (sym wrote)
      (record {
        going = record {
          last = (w.next, file ∙ ap (λ d. some (opened w.next d)) (sym date), sym next, old);
        };
        file = (w.next, ap (λ l. l ++ (opened w.next today, taken result p) ∷ []) same);
      })

rotate-first :
    (w : RollingFileWriter) (today : String) (opens : Bool)
    → w.current_file ≡ none
    → rotate today opens w ≡ open_new_file today opens w
unfolding rotate
rotate-first w today opens e = rw (e, rotate)

rotate-next :
    (w : RollingFileWriter) (today : String) (opens : Bool) (file : File)
    → w.current_file ≡ some file
    → rotate today opens w ≡ open_new_file today opens (record w { closed = file ∷ w.closed })
unfolding rotate
rotate-next w today opens file e = rw (e, rotate)

write-IsLogged :
    (w : RollingFileWriter) (today : String) (result : Written) (p : Bytes)
    → IsReady w
    → IsLogged w (write today true result p w).0 today (taken result p)
unfolding write open_new_file should_rotate
write-IsLogged w today result p (inl (none_yet, nothing_closed)) =
    both (λ (o : RollingFileWriter × Bool). IsLogged w o.0 today (taken result p))
      (should_rotate today w || is_nil w.current_file)
      (λ _.
        subst (λ v. IsLogged w (write_file result p v).0 today (taken result p))
          (sym (rotate-first w today true none_yet))
          (begun (open_new_file today true w) w today result p refl refl refl refl
            (subst (All (IsOlder w.next)) (sym nothing_closed) tt)))
      (λ bad. ground arith)
write-IsLogged w today result p (inr v) =
    let (i, file, next, old) = v.last in
    both (λ (o : RollingFileWriter × Bool). IsLogged w o.0 today (taken result p))
      (should_rotate today w || is_nil w.current_file)
      (λ _.
        subst (λ v. IsLogged w (write_file result p v).0 today (taken result p))
          (sym (rotate-next w today true (opened i w.current_date) file))
          (begun
            (open_new_file today true (record w { closed = opened i w.current_date ∷ w.closed })) w
            today result p refl refl refl refl
            (
              omega (arith, next),
              subst (λ n. All (IsOlder n) w.closed) next (older i w.closed old),
            )))
      (λ quiet.
        let same : today ≡ w.current_date = ground (arith, eq_iff today w.current_date, file) in
        let named = file ∙ ap (λ d. some (opened i d)) (sym same) in
        subst (λ o. IsLogged w o.0 today (taken result p))
          (sym (write_file-open w i today result p named old))
          (record { going = record { last = (i, file, next, old) }; file = (i, refl) }))

-- The date in the name of the file.
abbrev pub dated : File × Bytes → Option String × Bytes
dated (stdout, p) = (none, p)
dated (opened i date, p) = (some date, p)

abbrev pub on_their_days : List (String × Bytes × Written) → List (Option String × Bytes)
on_their_days [] = []
on_their_days ((today, p, result) ∷ lines) = (some today, taken result p) ∷ on_their_days lines

map-append : (a b : List (File × Bytes)) → map dated (a ++ b) ≡ map dated a ++ map dated b
map-append [] b = refl
map-append (x ∷ a) b = ap (λ t. dated x ∷ t) (map-append a b)

all_logged :
    (lines : List (String × Bytes × Written)) (w : RollingFileWriter)
    → IsReady w
    → map dated (write_all lines w).written ≡ map dated w.written ++ on_their_days lines
unfolding write_all
all_logged [] w h = sym (append-nil (map dated w.written))
all_logged ((today, p, result) ∷ lines) w h =
    let step = write-IsLogged w today result p h in
    let (i, wrote) = step.file in
    all_logged lines (write today true result p w).0 (inr step.going)
    ∙ ap (λ l. map dated l ++ on_their_days lines) wrote
    ∙ ap (λ l. l ++ on_their_days lines)
        (map-append w.written ((opened i today, taken result p) ∷ []))
    ∙ append_assoc (map dated w.written) ((some today, taken result p) ∷ []) (on_their_days lines)

-- If every file can be opened: what a new writer has written are the lines in their order, each in a
-- file with the date of the line in its name; and each is whole, unless the write to the open file has
-- failed, and then it is the part that was written until then. No write goes to a closed file.
pub write_all-dated :
    (start : String) (lines : List (String × Bytes × Written))
    → map dated (write_all lines (new_rolling_file_writer start)).written ≡ on_their_days lines
write_all-dated start lines = all_logged lines (new_rolling_file_writer start) (inl (refl, refl))

write_file-closed :
    (w : RollingFileWriter) (result : Written) (p : Bytes)
    → (write_file result p w).0.closed ≡ w.closed
unfolding write_file
write_file-closed w result p = elim (Option-cases w.current_file) [
  | inl e ↦ rw (e, write_file)
  | inr (file, e) ↦ rw (e, write_file) (ground arith)
]

-- If a writer is at the standard output, as it is when a file could not be opened, the first write
-- of another day closes the standard output, and if its file cannot be opened either, the line is lost,
-- whatever a write to an open file would give.
pub write-stdout :
    (w : RollingFileWriter) (today : String) (result : Written) (p : Bytes)
    → w.current_file ≡ some stdout
    → str_eq today w.current_date ≡ false
    → (is_closed (write today true result p w).0.closed stdout ≡ true)
      × ((write today false result p w).1 ≡ false)
unfolding write open_new_file should_rotate write_file is_closed
write-stdout w today result p file other =
    let next = record w { closed = stdout ∷ w.closed } in
    rw (other, write)
      (rw (rotate-next w today true stdout file, rotate-next w today false stdout file)
        (
          ap (λ l. is_closed l stdout) (write_file-closed (open_new_file today true next) result p),
          refl,
        ))
