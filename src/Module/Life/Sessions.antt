-- ===== src/Module/Life/Sessions.antt =====
-- Sessions without a streaming thread, and how they end (src/module.cpp, src/note_usb_session.cpp).
use note_usb.Shared.{
  ℕ, ◌≡◌, refl, sym, ◌∙◌, Bool, true, false, none, some, [], ◌∷◌, ℤ, arith, int_key, if◌then◌else◌,
  Bool-cases, Option-cases, inl, inr,
}
use mathlib.Core.Path.{subst}
use note_usb.Shared.Map.{Map, lookup, insert, modify, place, erase}
use note_usb.Platform.{Env, World, Handle}
use note_usb.Manager.{unregister_session}
use note_usb.Handler.Handles.{Quiet}
use note_usb.Session.{Ran, returned, threw, crashed, hung}
use note_usb.Session.Lifecycle.{unregister_from_hotplug}
use note_usb.Session.Live.{then_run, Live, stop_streaming, stop_session, destroy_session}
use note_usb.Streaming.{ReportQueue}
use note_usb.Module.Life.{clear_sessions}

-- The call returns, and what it returns is so.
abbrev pub Returns : {V A : Type 0} → (A → World V → Type 0) → Ran A × World V → Type 0
Returns P (returned a, w) = P a w
Returns P (threw, w) = ⊥
Returns P (crashed, w) = ⊥
Returns P (hung, w) = ⊥

pub then_run-Returns :
    {V A B : Type 0} (P : A → World V → Type 0) (Q : B → World V → Type 0) (r : Ran A × World V)
    (next : A → World V → Ran B × World V)
    → Returns P r
    → ((a : A) (w : World V) → P a w → Returns Q (next a w))
    → Returns Q (then_run r.0 next r.1)
then_run-Returns P Q (returned a, w) next p h = h a w p
then_run-Returns P Q (threw, w) next p h = absurd p
then_run-Returns P Q (crashed, w) next p h = absurd p
then_run-Returns P Q (hung, w) next p h = absurd p

-- Each branch of a test, with what the test says.
pub if_holds :
    {R : Type 0} (P : R → Type 0) (b : Bool) {x y : R}
    → ((b ≡ true) → P x)
    → ((b ≡ false) → P y)
    → P (if b then x else y)
if_holds P true p q = p refl
if_holds P false p q = q refl

module _ (env : Env) (q : ReportQueue) where
  -- No session of the table has a streaming thread.
  abbrev pub AllIdle : Map ℤ (Live env q) → Type 0
  AllIdle [] = Unit
  AllIdle ((pid, l) ∷ rest) = (l.streaming ≡ none) × AllIdle rest

  pub lookup-AllIdle :
      (m : Map ℤ (Live env q)) (pid : ℤ) (l : Live env q)
      → AllIdle m
      → lookup pid m ≡ some l
      → l.streaming ≡ none
  unfolding lookup
  lookup-AllIdle [] pid l a e = ground (arith, e)
  lookup-AllIdle ((p, l') ∷ m) pid l a e = ground (arith, a.0, lookup-AllIdle m pid l a.1, e)

  pub modify-AllIdle :
      (m : Map ℤ (Live env q)) (pid : ℤ) (l : Live env q)
      → l.streaming ≡ none
      → AllIdle m
      → AllIdle (modify pid (λ _. l) m)
  unfolding modify
  modify-AllIdle [] pid l n a = tt
  modify-AllIdle ((p, l') ∷ m) pid l n a = (ground (arith, a.0, n), modify-AllIdle m pid l n a.1)

  place-AllIdle :
      (m : Map ℤ (Live env q)) (pid : ℤ) (l : Live env q)
      → l.streaming ≡ none
      → AllIdle m
      → AllIdle (place pid l m)
  unfolding place
  place-AllIdle [] pid l n a = (n, tt)
  place-AllIdle ((p, l') ∷ m) pid l n a = ground (arith, a.0, a.1, n, place-AllIdle m pid l n a.1)

  pub insert-AllIdle :
      (m : Map ℤ (Live env q)) (pid : ℤ) (l : Live env q)
      → l.streaming ≡ none
      → AllIdle m
      → AllIdle (insert pid l m)
  unfolding insert
  insert-AllIdle m pid l n a = elim (Option-cases (lookup pid m)) [
    | inl e ↦ rw (e, insert) (place-AllIdle m pid l n a)
    | inr (l', e) ↦ rw (e, insert) (modify-AllIdle m pid l n a)
  ]

  pub erase-AllIdle : (m : Map ℤ (Live env q)) (pid : ℤ) → AllIdle m → AllIdle (erase pid m)
  unfolding erase
  erase-AllIdle [] pid a = tt
  erase-AllIdle ((p, l) ∷ m) pid a = ground (arith, a.0, a.1, erase-AllIdle m pid a.1)

  stop_streaming_idle :
      (f : ℕ) (l : Live env q) (w : World env.Value)
      → l.streaming ≡ none
      → stop_streaming env q f l w ≡ (returned l, w)
  unfolding stop_streaming
  stop_streaming_idle f l w n =
      subst
        (λ o.
          stop_streaming env q f (record l { streaming = o }) w
          ≡ (returned (record l { streaming = o }), w))
        (sym n) refl

  pub stop_session-Returns :
      (f : ℕ) (l : Live env q) (w : World env.Value)
      → l.streaming ≡ none
      → Returns (λ l' w'. (l'.streaming ≡ none) × (w' ≡ w)) (stop_session env q f l w)
  unfolding stop_session
  stop_session-Returns f l w n = elim (Bool-cases l.session.running) [
    | inr e ↦ rw (e, stop_session) (n, refl)
    | inl e ↦
        rw
          (
            e,
            stop_session,
            stop_streaming_idle f
                (record l { session = record l.session { running = false; stop_requested = true } })
                w n,
          )
          (n, refl)
  ]

  pub destroy_session-Returns :
      (x : Handle) (f : ℕ) (l : Live env q) (w : World env.Value)
      → l.streaming ≡ none
      → Returns (λ _ w'. Quiet x w w') (destroy_session env q f l w)
  unfolding destroy_session unregister_from_hotplug unregister_session
  destroy_session-Returns x f l w n =
      rw (stop_streaming_idle f l (unregister_from_hotplug env l.session w).1 n) (refl, refl)

  pub clear_sessions-Returns :
      (x : Handle) (f : ℕ) (m : Map ℤ (Live env q)) (w : World env.Value)
      → AllIdle m
      → Returns (λ _ w'. Quiet x w w') (clear_sessions env q f m w)
  unfolding clear_sessions
  clear_sessions-Returns x f [] w a = (refl, refl)
  clear_sessions-Returns x f ((pid, l) ∷ m) w a =
      then_run-Returns (λ _ w'. Quiet x w w') (λ _ w'. Quiet x w w') (destroy_session env q f l w) _
        (destroy_session-Returns x f l w a.0)
        (λ _ w' k. later w' k (clear_sessions env q f m w') (clear_sessions-Returns x f m w' a.1))
    where
      later :
          (w' : World env.Value)
          → Quiet x w w'
          → (r : Ran (Unit {0}) × World env.Value) → Returns (λ _ w''. Quiet x w' w'') r
          → Returns (λ _ w''. Quiet x w w'') r
      later w' k (returned _, w'') p = (p.0 ∙ k.0, p.1 ∙ k.1)
      later w' k (threw, w'') p = p
      later w' k (crashed, w'') p = p
      later w' k (hung, w'') p = p
