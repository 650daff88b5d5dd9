-- ===== src/Exec/Relates.antt =====
-- What an action does to the state, whether it returns or raises, as a reflexive and transitive
-- relation between the state before and the state after: one rule for each way to build an action.
use bass_platform.Base.{String, Bool, true, false, if◌then◌else◌}
use bass_platform.Errors.{Kind, Raised, Result, ok, err}
use bass_platform.Exec.{
  Exec, pure, raise, reraise, lift, gets, handled, catch, modify, continue, ◌>>=◌,
}

pub record IsPreorder {S : Type 0} (R : S → S → Type 0) : Type 0 where
  pub same : (s : S) → R s s
  pub trans : (s t u : S) → R s t → R t u → R s u

pub record Relates {S A : Type 0} (R : S → S → Type 0) (m : Exec S A) : Type 0 where
  pub at : (s : S) → R s (m s).1

module _ {S : Type 0} {R : S → S → Type 0} (o : IsPreorder R) where
  pub Relates-pure : {A : Type 0} (a : A) → Relates R (pure a)
  Relates-pure a = record { at = λ s. o.same s }

  pub Relates-raise : {A : Type 0} (k : Kind) (m : String) → Relates R (raise {A = A} k m)
  Relates-raise k m = record { at = λ s. o.same s }

  pub Relates-reraise : {A : Type 0} (e : Raised) → Relates R (reraise {A = A} e)
  Relates-reraise e = record { at = λ s. o.same s }

  pub Relates-lift : {A : Type 0} (r : Result A) → Relates R (lift r)
  Relates-lift r = record { at = λ s. o.same s }

  pub Relates-gets : {A : Type 0} (f : S → A) → Relates R (gets f)
  Relates-gets f = record { at = λ s. o.same s }

  pub Relates-if :
      {A : Type 0} (b : Bool) (m n : Exec S A)
      → Relates R m
      → Relates R n
      → Relates R (if b then m else n)
  Relates-if true m n hm hn = hm
  Relates-if false m n hm hn = hn

  pub Relates-modify : (f : S → S) → ((s : S) → R s (f s)) → Relates R (modify f)
  Relates-modify f h = record { at = h }

  pub continue_at :
      {A B : Type 0} (r : Result A) (f : A → Exec S B) (s t : S)
      → R s t
      → ((a : A) → Relates R (f a))
      → R s (continue r f t).1
  continue_at (ok a) f s t h hf = o.trans s t (f a t).1 h ((hf a).at t)
  continue_at (err e) f s t h hf = h

  -- The same where what follows is related at this state.
  pub continue_here :
      {A B : Type 0} (r : Result A) (f : A → Exec S B) (s t : S)
      → R s t
      → ((a : A) → R t (f a t).1)
      → R s (continue r f t).1
  continue_here (ok a) f s t h hf = o.trans s t (f a t).1 h (hf a)
  continue_here (err e) f s t h hf = h

  pub Relates-bind :
      {A B : Type 0} (m : Exec S A) (f : A → Exec S B)
      → Relates R m
      → ((a : A) → Relates R (f a))
      → Relates R (m >>= f)
  Relates-bind m f hm hf = record { at = λ s. let (r, t) = m s in continue_at r f s t (hm.at s) hf }

  handled_at :
      {A : Type 0} (r : Result A) (h : Raised → Exec S A) (s t : S)
      → R s t
      → ((e : Raised) → Relates R (h e))
      → R s (handled r h t).1
  handled_at (ok a) h s t p hh = p
  handled_at (err e) h s t p hh = o.trans s t (h e t).1 p ((hh e).at t)

  pub Relates-catch :
      {A : Type 0} (m : Exec S A) (h : Raised → Exec S A)
      → Relates R m
      → ((e : Raised) → Relates R (h e))
      → Relates R (catch m h)
  Relates-catch m h hm hh = record { at = λ s. let (r, t) = m s in handled_at r h s t (hm.at s) hh }
