-- ===== src/Context.antt =====
-- What the program uses of Go's `context`: `Background`, `WithCancel`, a cancel function and `Done`.
-- A context is the list of its own identity and those of its ancestors, so a cancelled ancestor
-- ends it. A `CancelFunc` is the identity that it cancels.
use gotaxy.Prelude.{
  ℕ, suc, ◌<◌, ◌≡◌, refl, Bool, true, false, ◌||◌, List, [], ◌∷◌, arith, ◌==◌, if◌then◌else◌, All,
}

abbrev pub Context : Type 0
Context = List ℕ

abbrev pub CancelFunc : Type 0
CancelFunc = ℕ

abbrev pub background : Context
background = []

pub record Contexts : Type 0 where
  pub next : ℕ
  pub cancelled : List ℕ

unfoldable pub member : List ℕ → ℕ → Bool
member [] i = false
member (j ∷ l) i = j == i || member l i

-- ctx, cancel := context.WithCancel(parent)
abbrev pub with_cancel : Contexts → Context → Context × CancelFunc × Contexts
with_cancel s parent = (s.next ∷ parent, s.next, record s { next = suc s.next })

-- cancel()
abbrev pub cancel : Contexts → CancelFunc → Contexts
cancel s i = record s { cancelled = i ∷ s.cancelled }

-- whether `<-ctx.Done()` goes through
unfoldable pub done : Contexts → Context → Bool
unfolding member
done s [] = false
done s (i ∷ ancestors) = member s.cancelled i || done s ancestors

-- Every identity in use was given out.
abbrev pub IsOld : ℕ → Context → Type 0
IsOld n = All (λ i. i < n)

-- A cancel function ends the contexts that have its identity among their own and their ancestors',
-- and no other.
pub done-cancel :
    (s : Contexts) (i : CancelFunc) (c : Context)
    → done (cancel s i) c ≡ (if member c i then true else done s c)
unfolding done member
done-cancel s i [] = refl
done-cancel s i (j ∷ c) = ground (arith, done-cancel s i c)

pub member-IsOld : (n : ℕ) (c : Context) → IsOld n c → member c n ≡ false
unfolding member
member-IsOld n [] h = refl
member-IsOld n (j ∷ c) h = ground (arith, member-IsOld n c h.1)
