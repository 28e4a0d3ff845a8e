-- ===== src/Connection/Queues/Late.antt =====
-- Whose answer a call of src/detail/connection_impl.cpp is given.
use cassandra_driver.Base.{
  ◌≢◌, ◌∙◌, ℕ, suc, ◌≡◌, ◌⊎◌, inl, inr, refl, ap, sym, subst, List, [], ◌∷◌, ◌++◌, none, some, All,
  arith,
}
use cassandra_driver.Connection.Queues.{
  Slot, Reaches, start, sends, unsent, receives, pops, times_out,
}

-- No call holds the stream, and no answer is on its way or there.
pub record IsQuiet (s : Slot) : Type 0 where
  pub unused : s.caller ≡ none
  pub nothing_owed : s.owed ≡ []
  pub nothing_queued : s.queue ≡ []

-- The call that holds the stream waits for its answer, which is there, or on its way, or will never come.
record IsServed (s : Slot) (call : ℕ) : Type 0 where
  waits : s.caller ≡ some call
  answer :
      ((s.owed ≡ []) × (s.queue ≡ call ∷ []))
      ⊎ (((s.owed ≡ call ∷ []) ⊎ (s.owed ≡ [])) × (s.queue ≡ []))

abbrev pub IsOwn : ℕ × ℕ → Type 0
IsOwn (call, request) = call ≡ request

record IsInOrder (s : Slot) : Type 0 where
  now : IsQuiet s ⊎ ((call : ℕ) × IsServed s call)
  own : All IsOwn s.given

inserted_nonempty : (before after : List ℕ) (x : ℕ) → [] ≢ before ++ x ∷ after
inserted_nonempty [] after x = λ e. cc
inserted_nonempty (b ∷ before) after x = λ e. cc

-- A list of one has one place.
only :
    (before after : List ℕ) (x y : ℕ)
    → y ∷ [] ≡ before ++ x ∷ after
    → (y ≡ x) × (before ++ after ≡ [])
only [] after x y e = (cc, cc)
only (b ∷ before) after x y e =
    let others : [] ≡ before ++ x ∷ after = cc in absurd (inserted_nonempty before after x others)

received :
    (s : Slot) (before after : List ℕ) (request : ℕ)
    → s.owed ≡ before ++ request ∷ after
    → s.queue ≡ []
    → IsInOrder s
    → IsInOrder (record s { owed = before ++ after; queue = request ∷ [] })
received s before after request owed queue h = elim h.now [
  | inl quiet ↦ absurd (inserted_nonempty before after request (sym quiet.nothing_owed ∙ owed))
  | inr (call, served) ↦ elim served.answer [
    | inl (_, there) ↦ cc
    | inr (inr never, _) ↦ absurd (inserted_nonempty before after request (sym never ∙ owed))
    | inr (inl coming, _) ↦
        let (same, nothing) = only before after request call (sym coming ∙ owed) in
        record {
          now = inr (call, record { waits = served.waits; answer = inl (nothing, rw same refl) });
          own = h.own;
        }
  ]
]

popped :
    (s : Slot) (call request : ℕ) (rest : List ℕ)
    → s.caller ≡ some call
    → s.queue ≡ request ∷ rest
    → IsInOrder s
    → IsInOrder (record s { caller = none; queue = rest; given = (call, request) ∷ s.given })
popped s call request rest caller queue h = elim h.now [
  | inl quiet ↦ cc
  | inr (c, served) ↦ elim served.answer [
    | inr (_, nothing) ↦ cc
    | inl (nothing, there) ↦
        let itself : c ≡ call = cc served.waits in
        let answered : request ≡ c = cc in
        record {
          now = inl (record { unused = refl; nothing_owed = nothing; nothing_queued = cc });
          own = (cc, h.own);
        }
  ]
]

taken :
    (s : Slot) (call : ℕ) (owed : List ℕ)
    → s.caller ≡ none
    → IsInOrder s
    → (s.owed ≡ [] → (owed ≡ call ∷ []) ⊎ (owed ≡ []))
    → IsInOrder (record s { caller = some call; owed = owed })
taken s call owed unused h asked = elim h.now [
  | inl quiet ↦ record {
    now = inr (
      call,
      record { waits = refl; answer = inr (asked quiet.nothing_owed, quiet.nothing_queued) },
    );
    own = h.own;
  }
  | inr (c, served) ↦ cc served.waits
]

in_order : {n : ℕ} {s : Slot} → n ≡ 0 → Reaches n s → IsInOrder s
in_order e start = record {
  now = inl (record { unused = refl; nothing_owed = refl; nothing_queued = refl });
  own = tt;
}
in_order e (sends {s = s} call unused h) =
    taken s call (s.owed ++ call ∷ []) unused (in_order e h) (λ none_owed. inl (rw none_owed refl))
in_order e (unsent {s = s} call unused h) =
    taken s call s.owed unused (in_order e h) (λ none_owed. inr none_owed)
in_order e (receives {s = s} before after request owed queue h) =
    received s before after request owed queue (in_order e h)
in_order e (pops {s = s} call request rest caller queue h) =
    popped s call request rest caller queue (in_order e h)
in_order e (times_out call caller queue h) = absurd (omega arith)

-- As long as no call on a stream has met its deadline or was cancelled as it waited, each was given the answer to its own request,
-- in whatever order answers and calls came, and whether requests were sent or not.
pub given-IsOwn : {s : Slot} → Reaches 0 s → All IsOwn s.given
given-IsOwn h = (in_order refl h).own

-- Behind any history that leaves a stream quiet, one call that meets its deadline is enough for the next
-- to be given the answer to the request of the one before.
pub late_given :
    {n : ℕ} {s : Slot} (first second : ℕ)
    → Reaches n s
    → IsQuiet s
    → (t : Slot) × Reaches (suc n) t × (t.given ≡ (second, first) ∷ s.given)
late_given {n} {s} first second h quiet =
    let gone = times_out first refl quiet.nothing_queued (sends first quiet.unused h) in
    let owed : (s.owed ++ first ∷ []) ++ second ∷ [] ≡ [] ++ first ∷ second ∷ [] =
      rw quiet.nothing_owed refl in
    let late = receives [] (second ∷ []) first owed quiet.nothing_queued (sends second refl gone) in
    (_, pops second first [] refl refl late, refl)

-- Some answer is on its way or there.
answered_by_some :
    {n : ℕ} {s : Slot} (call : ℕ) (owed queue : List ℕ)
    → s.owed ≡ owed
    → s.queue ≡ queue
    → s.caller ≡ some call
    → owed ++ queue ≢ []
    → Reaches n s
    → (request : ℕ) × (t : Slot) × Reaches n t
      × (t.caller ≡ none)
      × (t.given ≡ (call, request) ∷ s.given)
answered_by_some call [] [] e f waits some_answer h = absurd (some_answer refl)
answered_by_some call owed (request ∷ rest) e f waits some_answer h =
    (request, _, pops call request rest waits f h, refl, refl)
answered_by_some call (request ∷ owed) [] e f waits some_answer h =
    (request, _, pops call request [] waits refl (receives [] owed request e f h), refl, refl)

pub answered :
    {s : Slot} (call : ℕ)
    → Reaches 0 s
    → s.caller ≡ some call
    → s.owed ++ s.queue ≢ []
    → (t : Slot) × Reaches 0 t × (t.caller ≡ none) × (t.given ≡ (call, call) ∷ s.given)
answered {s} call h waits some_answer =
    let (request, t, later, free, given) =
      answered_by_some call s.owed s.queue refl refl waits some_answer h in
    let own = subst (All IsOwn) given (given-IsOwn later) in
    (t, later, free, given ∙ ap (λ r. (call, r) ∷ s.given) (sym own.0))
