-- ===== src/Handles/Exec.antt =====
-- `NamedStmt.ExecContext`, over the state of a database, and the other calls of named_stmt.go that bind
-- their argument.
use sqlx_v.Prelude.{
  ℕ, Option, none, some, List, [], ◌∷◌, ◌++◌, ◌≡◌, refl, ap, ◌∙◌, inl, inr, Option-cases, Bytes,
  All,
}
use sqlx_v.Errors.{Error, Result, ok, fail, panics, ◌>>=◌, Result-cases}
use sqlx_v.Value.{GoType, Value}
use sqlx_v.Reflectx.Mapper.{Mapper}
use sqlx_v.Reflectx.Tags.{Setting}
use sqlx_v.Bind.Args.{Arg, bind_any_args, bind_map_args, convert_map_string_interface}
use sqlx_v.Bind.Named.{elements_of}
use sqlx_v.Handles.{NamedStmt}

-- What `return res, err` gives: the `sql.Result`, which may be nil, and the error.
pub record Executed : Type 0 where
  pub res : Option ℕ
  pub outcome : Result (Unit {0})

-- `bind.BindAnyArgs` with the mapper of the statement; a struct needs it, and a nil one panics.
unfoldable pub bind_statement_args :
    Setting → Option Mapper → List Bytes → Value → Result (List Arg)
bind_statement_args env none params arg = do
  found ← convert_map_string_interface arg
  elim found [ some es ↦ bind_map_args params es | none ↦ panics ]
bind_statement_args env (some m) params arg = bind_any_args (record env { mapper = m }) params arg

abbrev pub outcome_of : Option Error → Result (Unit {0})
outcome_of none = ok tt
outcome_of (some e) = fail e

-- `exec` is `n.Stmt.ExecContext` of database/sql: the state of the database with its result and error.
module _ {S : Type 0} (env : Setting) (n : NamedStmt)
    (exec : List Arg → S → S × (Option ℕ × Option Error)) where
  unfoldable pub bind_params : Value → Result (List Arg)
  bind_params arg = bind_statement_args env n.stmt.mapper n.params arg

  -- One argument, bound as a whole: what the loop does with an element, and `ExecContext` with an
  -- argument that is no slice or array.
  unfoldable pub exec_one : Value → S → S × Executed
  unfolding bind_params
  exec_one arg s = elim (bind_params arg) [
    | ok args ↦ let (s', r) = exec args s in (s', record { res = r.0; outcome = outcome_of r.1 })
    | fail e ↦ (s, record { res = none; outcome = fail e })
    | panics ↦ (s, record { res = none; outcome = panics })
  ]

  -- The loop over the elements; `res` is what the last round left.
  unfoldable pub exec_elements : List Value → S → Option ℕ → S × Executed
  unfolding bind_params
  exec_elements [] s res = (s, record { res = res; outcome = ok tt })
  exec_elements (elem ∷ elems) s res = elim (bind_params elem) [
    | ok args ↦
        let (s', r) = exec args s in
        elim r.1 [
          | some e ↦ (s', record { res = r.0; outcome = fail e })
          | none ↦ exec_elements elems s' r.0
        ]
    | fail e ↦ (s, record { res = res; outcome = fail e })
    | panics ↦ (s, record { res = res; outcome = panics })
  ]

  -- `NamedStmt.ExecContext`; an empty slice is the loop with no round.
  unfoldable pub exec_context : Value → S → S × Executed
  unfolding exec_one exec_elements
  exec_context arg s = elim (elements_of arg) [
    | some (elem_type, elems) ↦ exec_elements elems s none
    | none ↦ exec_one arg s
  ]

  -- Some elements are bound and executed one after the other, each without an error.
  pub data Executes : List Value → S → Option ℕ → S → Option ℕ → Type 0 where
    nothing : {s : S} {res : Option ℕ} → Executes [] s res s res
    then_one :
        {v : Value} {vs : List Value} {s t u : S} {res mid out : Option ℕ}
        → exec_one v s ≡ (t, record { res = mid; outcome = ok tt })
        → Executes vs t mid u out
        → Executes (v ∷ vs) s res u out

  -- How a batch ends: all of it was executed, or the first element that fails says why.
  pub data Ends (vs : List Value) (s : S) (res : Option ℕ) : S × Executed → Type 0 where
    all_of_it :
        {t : S} {out : Option ℕ}
        → Executes vs s res t out
        → Ends vs s res (t, record { res = out; outcome = ok tt })
    stopped :
        (before rest : List Value) (v : Value) {t u : S} {mid one out : Option ℕ} {e : Error}
        → vs ≡ before ++ v ∷ rest
        → Executes before s res t mid
        → exec_one v t ≡ (u, record { res = one; outcome = fail e })
        → Ends vs s res (u, record { res = out; outcome = fail e })
    panicked :
        (before rest : List Value) (v : Value) {t : S} {mid : Option ℕ}
        → vs ≡ before ++ v ∷ rest
        → Executes before s res t mid
        → (exec_one v t).1.outcome ≡ panics
        → Ends vs s res (t, record { res = mid; outcome = panics })

  later_Ends :
      {v : Value} {vs : List Value} {s t : S} {res mid : Option ℕ} {p : S × Executed}
      → exec_one v s ≡ (t, record { res = mid; outcome = ok tt })
      → Ends vs t mid p
      → Ends (v ∷ vs) s res p
  later_Ends {v} one (all_of_it r) = all_of_it (then_one one r)
  later_Ends {v} one (stopped before rest w same r last) =
      stopped (v ∷ before) rest w (ap (λ l. v ∷ l) same) (then_one one r) last
  later_Ends {v} one (panicked before rest w same r last) =
      panicked (v ∷ before) rest w (ap (λ l. v ∷ l) same) (then_one one r) last

  exec_one-bind_params :
      (v : Value) (s : S) {args : List Arg}
      → bind_params v ≡ ok args
      → exec_one v s ≡ (
        (exec args s).0,
        record { res = (exec args s).1.0; outcome = outcome_of (exec args s).1.1 },
      )
  unfolding exec_one
  exec_one-bind_params v s h = rw (h, exec_one) refl

  exec_one-fails :
      (v : Value) (s : S) {e : Error}
      → bind_params v ≡ fail e
      → exec_one v s ≡ (s, record { res = none; outcome = fail e })
  unfolding exec_one
  exec_one-fails v s h = rw (h, exec_one) refl

  exec_one-panics : (v : Value) (s : S) → bind_params v ≡ panics → (exec_one v s).1.outcome ≡ panics
  unfolding exec_one
  exec_one-panics v s h = rw (h, exec_one) refl

  exec_elements-Ends :
      (vs : List Value) (s : S) (res : Option ℕ) → Ends vs s res (exec_elements vs s res)
  unfolding exec_elements
  exec_elements-Ends [] s res = all_of_it nothing
  exec_elements-Ends (v ∷ vs) s res = elim (Result-cases (bind_params v)) [
    | inl (args, bound) ↦
        let (t, r) = exec args s in
        let one = exec_one-bind_params v s bound in
        elim (Option-cases r.1) [
          | inl fine ↦
              rw (bound, exec_elements, fine)
                (later_Ends (one ∙ ap (λ o. (t, record { res = r.0; outcome = outcome_of o })) fine)
                  (exec_elements-Ends vs t r.0))
          | inr (e, failed) ↦
              rw (bound, exec_elements, failed)
                (stopped [] vs v refl nothing
                  (one ∙ ap (λ o. (t, record { res = r.0; outcome = outcome_of o })) failed))
        ]
    | inr (inl (e, failed)) ↦
        rw (failed, exec_elements) (stopped [] vs v refl nothing (exec_one-fails v s failed))
    | inr (inr panicking) ↦
        rw (panicking, exec_elements)
          (panicked [] vs v refl nothing (exec_one-panics v s panicking))
  ]

  -- `ExecContext` of an element by itself is that step, unless the element is a slice or an array.
  abbrev pub StepsAlone : List Value → Type 0
  StepsAlone = All (λ v. elements_of v ≡ none → (s : S) → exec_context v s ≡ exec_one v s)

  all_StepsAlone : (vs : List Value) → StepsAlone vs
  unfolding exec_context
  all_StepsAlone [] = tt
  all_StepsAlone (v ∷ vs) = ((λ h s. rw (h, exec_context) refl), all_StepsAlone vs)

  -- A batch is no transaction: over a slice or an array `ExecContext` binds and executes the elements in
  -- order, each as one argument, up to the first one that fails, whose error is returned, or that panics;
  -- those before it stay executed. If none fails all are executed, and the last one's result is returned,
  -- or none for an empty slice. An element that is no slice or array is executed as `ExecContext` would
  -- execute it alone; one that is, is not gone through but bound as a whole.
  pub exec_context-Ends :
      (arg : Value) (s : S) {elem_type : GoType} {elems : List Value}
      → elements_of arg ≡ some (elem_type, elems)
      → Ends elems s none (exec_context arg s) × StepsAlone elems
  unfolding exec_context
  exec_context-Ends arg s {elem_type} {elems} h =
      rw (h, exec_context) (exec_elements-Ends elems s none, all_StepsAlone elems)
