-- ===== src/Runtime/Calls.antt =====
-- Which commands call the payment rail and the provider, and with what decisions.
use agent_financial_action_l.Base.{
  ◌≡◌, refl, true, false, List, Option, none, some, Bool, inl, inr, if◌then◌else◌,
}
use agent_financial_action_l.Base.Action.{
  Action, Error, pure, throw, gets, throw_if, assert_found, ◌>>=◌, ◌>>◌, Result-cases,
}
use agent_financial_action_l.Aip.{AipStore}
use agent_financial_action_l.Ats.{AtsStore}
use agent_financial_action_l.Amn.{AmnStore}
use agent_financial_action_l.State.{IntentStore}
use agent_financial_action_l.Outputs.{OutputStore}
use agent_financial_action_l.Notifications.Entries.{Outbox}
use agent_financial_action_l.Settlement.{Call}
use agent_financial_action_l.Runtime.{
  AfalState, on_aip, on_ats, on_amn, on_intents, on_outputs, on_outbox, catching,
}

-- A call keeps a property of the calls that the adapters got.
pub record Keeps {A : Type 0} (P : List Call → Type 0) (m : Action AfalState A) : Type 0 where
  pub keep : (s : AfalState) → P s.settlement.calls → P (m s).1.settlement.calls

module _ {P : List Call → Type 0} where
  pub bind-Keeps :
      {A B : Type 0} {m : Action AfalState A} {f : A → Action AfalState B}
      → Keeps P m
      → ((a : A) → Keeps P (f a))
      → Keeps P (m >>= f)
  bind-Keeps {m = m} {f = f} first later = record {
    keep = λ s h. elim (Result-cases (m s).0) [
      | inl (a, returned) ↦ rw returned ((later a).keep (m s).1 (first.keep s h))
      | inr (e, thrown) ↦ rw thrown (first.keep s h)
    ];
  }

  pub then-Keeps :
      {A B : Type 0} {m : Action AfalState A} {k : Action AfalState B}
      → Keeps P m
      → Keeps P k
      → Keeps P (m >> k)
  then-Keeps {m = m} {k = k} first later = bind-Keeps {m = m} {f = λ _. k} first (λ _. later)

  pub catching-Keeps :
      {A : Type 0} {m : Action AfalState A} {handler : Error → Action AfalState A}
      → Keeps P m
      → ((e : Error) → Keeps P (handler e))
      → Keeps P (catching m handler)
  catching-Keeps {m = m} {handler = handler} first later = record {
    keep = λ s h. elim (Result-cases (m s).0) [
      | inl (a, returned) ↦ rw returned (first.keep s h)
      | inr (e, thrown) ↦ rw thrown ((later e).keep (m s).1 (first.keep s h))
    ];
  }

  pub if-Keeps :
      {A : Type 0} (b : Bool) {m k : Action AfalState A}
      → (b ≡ true → Keeps P m)
      → (b ≡ false → Keeps P k)
      → Keeps P (if b then m else k)
  if-Keeps true left right = left refl
  if-Keeps false left right = right refl

  pub pure-Keeps : {A : Type 0} (a : A) → Keeps P (pure a)
  pure-Keeps a = record { keep = λ s h. h }

  pub throw-Keeps : {A : Type 0} (e : Error) → Keeps {A = A} P (throw e)
  throw-Keeps e = record { keep = λ s h. h }

  pub throw_if-Keeps : (b : Bool) (e : Error) → Keeps P (throw_if b e)
  throw_if-Keeps b e = record { keep = λ s h. h }

  pub gets-Keeps : {A : Type 0} (f : AfalState → A) → Keeps P (gets f)
  gets-Keeps f = record { keep = λ s h. h }

  pub assert_found-Keeps : {A : Type 0} (o : Option A) (e : Error) → Keeps P (assert_found o e)
  assert_found-Keeps none e = throw-Keeps e
  assert_found-Keeps (some a) e = pure-Keeps a

  pub on_aip-Keeps : {A : Type 0} (m : Action AipStore A) → Keeps P (on_aip m)
  on_aip-Keeps m = record { keep = λ s h. h }

  pub on_ats-Keeps : {A : Type 0} (m : Action AtsStore A) → Keeps P (on_ats m)
  on_ats-Keeps m = record { keep = λ s h. h }

  pub on_amn-Keeps : {A : Type 0} (m : Action AmnStore A) → Keeps P (on_amn m)
  on_amn-Keeps m = record { keep = λ s h. h }

  pub on_intents-Keeps : {A : Type 0} (m : Action IntentStore A) → Keeps P (on_intents m)
  on_intents-Keeps m = record { keep = λ s h. h }

  pub on_outputs-Keeps : {A : Type 0} (m : Action OutputStore A) → Keeps P (on_outputs m)
  on_outputs-Keeps m = record { keep = λ s h. h }

  pub on_outbox-Keeps : {A : Type 0} (m : Action Outbox A) → Keeps P (on_outbox m)
  on_outbox-Keeps m = record { keep = λ s h. h }

  pub ruleset quiet = (
    bind-Keeps, then-Keeps, catching-Keeps, pure-Keeps, throw-Keeps, throw_if-Keeps, gets-Keeps,
    assert_found-Keeps, on_aip-Keeps, on_ats-Keeps, on_amn-Keeps, on_intents-Keeps,
    on_outputs-Keeps, on_outbox-Keeps,
  )
