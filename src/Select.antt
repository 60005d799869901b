-- ===== src/Select.antt =====
-- pluvio_runtime/src/select.rs: `Select2`. The two futures are parameters, what a poll of each answers.
mod Races
mod Tests
use pluvio.Base.{Option, none, some, Poll, ready, pending}

pub data Either (A B : Type 0) : Type 0 where
  left : A → Either A B
  right : B → Either A B

pub record Select2 (F G : Type 0) : Type 0 where
  pub future1 : Option F
  pub future2 : Option G

abbrev pub new : {F G : Type 0} → F → G → Select2 F G
new f g = record { future1 = some f; future2 = some g }

module _ {F G A B : Type 0} (poll1 : F → Poll A × F) (poll2 : G → Poll B × G) where
  -- The second future is polled where the first has not answered.
  unfoldable pub poll_second : Select2 F G → Poll (Either A B) × Select2 F G
  poll_second s = elim s.future2 as (λ x. Poll (Either A B) × Select2 F G) [
    | none ↦ (pending, s)
    | some g ↦
        let (p, g') = poll2 g in
        elim p as (λ x. Poll (Either A B) × Select2 F G) [
          | ready b ↦ (ready (right b), record { future1 = none; future2 = none })
          | pending ↦ (pending, record s { future2 = some g' })
        ]
  ]

  unfoldable pub poll_select : Select2 F G → Poll (Either A B) × Select2 F G
  poll_select s = elim s.future1 as (λ x. Poll (Either A B) × Select2 F G) [
    | none ↦ poll_second s
    | some f ↦
        let (p, f') = poll1 f in
        elim p as (λ x. Poll (Either A B) × Select2 F G) [
          | ready a ↦ (ready (left a), record { future1 = none; future2 = none })
          | pending ↦ poll_second (record s { future1 = some f' })
        ]
  ]
