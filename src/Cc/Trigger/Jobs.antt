-- ===== src/Cc/Trigger/Jobs.antt =====
-- One job at a time, which gets the events in order.
use dtp.Base.{
  ℕ, ◌+◌, suc, ◌≤◌, ◌≡◌, refl, ap, sym, subst, ◌∙◌, true, false, List, [], ◌∷◌, ◌++◌, ◌==◌, length,
  length-append, append-nil, append_assoc, arith, Bool-cases, inl, inr,
}
use dtp.Cc.Trigger.{
  CcInfo, Job, CcTrigger, cc_trigger_new, spawn, request, respawn, with_received, receive, finish,
  cc_trigger_async,
}

-- The events of jobs, in order.
abbrev pub infos_of : List Job → List CcInfo
infos_of [] = []
infos_of (j ∷ js) = j.infos ++ infos_of js

-- The events of the first job.
abbrev pub first_infos : List Job → List CcInfo
first_infos [] = []
first_infos (j ∷ js) = j.infos

-- The states, with the events so far and those of the jobs that ended; a job may end at any time, also
-- between the two parts of `cc_trigger`.
pub data Runs (solution : List CcInfo → ℕ → ℕ → ℕ × ℕ)
    : List CcInfo → List CcInfo → CcTrigger → Type 0 where
  begun : (cwnd rate : ℕ) → Runs solution [] [] (cc_trigger_new cwnd rate)
  requested :
      {all done : List CcInfo} {t : CcTrigger} (info : CcInfo)
      → Runs solution all done t
      → Runs solution (all ++ (info ∷ [])) done (request info t)
  received :
      {all done : List CcInfo} {t : CcTrigger}
      → Runs solution all done t
      → Runs solution all done (receive t)
  ended :
      {all done : List CcInfo} {t : CcTrigger}
      → Runs solution all done t
      → Runs solution all (done ++ first_infos t.jobs) (cc_trigger_async solution t)

pub record IsSingle (all done : List CcInfo) (t : CcTrigger) : Type 0 where
  pub one : length t.jobs + length t.channel ≤ 1
  pub idle : t.started ≡ false → length t.jobs + length t.channel ≡ 0
  pub order : all ≡ done ++ (infos_of t.jobs ++ t.cc_infos)

infos_of-append : (js ks : List Job) → infos_of (js ++ ks) ≡ infos_of js ++ infos_of ks
infos_of-append [] ks = refl
infos_of-append (j ∷ js) ks =
    ap (λ l. j.infos ++ l) (infos_of-append js ks)
    ∙ sym (append_assoc j.infos (infos_of js) (infos_of ks))

-- The events of a new job come after those of the others.
spawn_order : (js : List Job) (j : Job) → infos_of (js ++ (j ∷ [])) ++ [] ≡ infos_of js ++ j.infos
spawn_order js j =
    append-nil (infos_of (js ++ (j ∷ [])))
    ∙ infos_of-append js (j ∷ [])
    ∙ ap (λ l. infos_of js ++ l) (append-nil j.infos)

push_order :
    (all done x c : List CcInfo) (info : CcInfo)
    → all ≡ done ++ (x ++ c)
    → all ++ (info ∷ []) ≡ done ++ (x ++ (c ++ (info ∷ [])))
push_order all done x c info e =
    ap (λ l. l ++ (info ∷ [])) e
    ∙ append_assoc done (x ++ c) (info ∷ [])
    ∙ ap (λ l. done ++ l) (append_assoc x c (info ∷ []))

spawn-IsSingle :
    (all done : List CcInfo) (t : CcTrigger)
    → length t.jobs + length t.channel ≡ 0
    → all ≡ done ++ (infos_of t.jobs ++ t.cc_infos)
    → IsSingle all done (record (spawn t) { started = true })
spawn-IsSingle all done t n o =
    let job : Job = record {
      infos = t.cc_infos;
      cwnd = t.congestion_window;
      rate = t.pacing_rate;
    } in
    record {
      one = omega (arith, length-append {0} t.jobs (job ∷ []));
      idle = λ h. cc;
      order = o ∙ ap (λ l. done ++ l) (sym (spawn_order t.jobs job));
    }

request-IsSingle :
    (info : CcInfo) (all done : List CcInfo) (t : CcTrigger)
    → IsSingle all done t
    → IsSingle (all ++ (info ∷ [])) done (request info t)
unfolding request
request-IsSingle info all done t s =
    let o = push_order all done (infos_of t.jobs) t.cc_infos info s.order in
    elim (Bool-cases t.started) [
      | inl e ↦ rw (request, e) record { one = s.one; idle = λ h. cc; order = o }
      | inr e ↦
          rw (request, e)
            (spawn-IsSingle (all ++ (info ∷ [])) done
              (record t { cc_infos = t.cc_infos ++ (info ∷ []) }) (s.idle e) o)
    ]

respawn-IsSingle :
    (all done : List CcInfo) (t : CcTrigger)
    → t.started ≡ true
    → length t.jobs + length t.channel ≡ 0
    → all ≡ done ++ (infos_of t.jobs ++ t.cc_infos)
    → IsSingle all done (respawn t)
respawn-IsSingle all done t u n o = elim (Bool-cases (length t.cc_infos == 0)) [
  | inl e ↦ rw e record { one = omega arith; idle = λ h. n; order = o }
  | inr e ↦ rw e (
      subst (λ b. IsSingle all done (record (spawn t) { started = b })) (sym u)
        (spawn-IsSingle all done t n o))
]

receive-IsSingle :
    (all done : List CcInfo) (t : CcTrigger) → IsSingle all done t → IsSingle all done (receive t)
unfolding receive
receive-IsSingle all done t s = go t.channel refl
  where
    go : (ch : List (ℕ × ℕ)) → t.channel ≡ ch → IsSingle all done (with_received ch t)
    go [] e = s
    go ((cwnd, rate) ∷ rest) e =
        let n : length t.channel ≡ suc (length rest) = ap length e in
        let one = s.one in
        respawn-IsSingle all done
          (record t { congestion_window = cwnd; pacing_rate = rate; channel = rest })
          (elim (Bool-cases t.started) [
            | inl u ↦ u
            | inr u ↦ let i = s.idle u in absurd (omega arith)
          ])
          (omega arith) s.order

cc_trigger_async-IsSingle :
    (solution : List CcInfo → ℕ → ℕ → ℕ × ℕ) (all done : List CcInfo) (t : CcTrigger)
    → IsSingle all done t
    → IsSingle all (done ++ first_infos t.jobs) (cc_trigger_async solution t)
unfolding cc_trigger_async
cc_trigger_async-IsSingle solution all done t s = go t.jobs refl
  where
    go :
        (js : List Job) → t.jobs ≡ js → IsSingle all (done ++ first_infos js) (finish solution js t)
    go [] e = rw (append-nil done) s
    go (j ∷ js) e =
        let n : length t.jobs ≡ suc (length js) = ap length e in
        let one = s.one in
        let sent = length-append {0} t.channel (solution j.infos j.cwnd j.rate ∷ []) in
        record {
          one = omega (arith, sent);
          idle = λ h. let i = s.idle h in absurd (omega arith);
          order =
              s.order
              ∙ ap (λ l. done ++ (infos_of l ++ t.cc_infos)) e
              ∙ ap (λ l. done ++ l) (append_assoc j.infos (infos_of js) t.cc_infos)
              ∙ sym (append_assoc done j.infos (infos_of js ++ t.cc_infos));
        }

-- In every run, however the jobs end between the calls, at most one job is running or has an answer
-- that was not received, and the events are given to the jobs in order, each once: those of the jobs
-- that ended, then those of the running one, then those that wait.
pub Runs-IsSingle :
    (solution : List CcInfo → ℕ → ℕ → ℕ × ℕ) {all done : List CcInfo} {t : CcTrigger}
    → Runs solution all done t
    → IsSingle all done t
Runs-IsSingle solution (begun cwnd rate) = record {
  one = omega arith;
  idle = λ h. refl;
  order = refl;
}
Runs-IsSingle solution (requested {all} {done} {t} info r) =
    request-IsSingle info all done t (Runs-IsSingle solution r)
Runs-IsSingle solution (received {all} {done} {t} r) =
    receive-IsSingle all done t (Runs-IsSingle solution r)
Runs-IsSingle solution (ended {all} {done} {t} r) =
    cc_trigger_async-IsSingle solution all done t (Runs-IsSingle solution r)
