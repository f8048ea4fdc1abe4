-- ===== src/Scripts/Interp/Keeps.antt =====
-- What the parts of a statement do to a variable that they do not assign.
use solx_core.Prelude.{
  Bool, true, false, Option, none, some, List, [], ◌∷◌, if◌then◌else◌, is_empty, Text, text_eq,
  text_eq_iff, text_eq_refl, Result, ok, err, ◌>>=◌, ◌≡◌, refl, sym, subst, ◌∙◌, Bool-cases, inl,
  inr,
}
use solx_core.Json.{Value, Items, null, nil, cons}
use solx_core.Surface.Error.{SolxError, Fallible}
use solx_core.Surface.Path.{trim}
use solx_core.Scripts.Platform.{Platform}
use solx_core.Scripts.Values.{Ctx}
use solx_core.Scripts.Interp.{
  Runner, Machine, Outcome, pure_at, ran, piped_of, run_tokens, run_stages, execute_pipeline,
  with_var, items_of, source_items, each, restore, exec_for, exec_wait, stage_tokens, wait_secs,
  eval_source, bare_var_ref,
}
use solx_core.Scripts.Interp.Program.{ForSource, from_pipeline, range, set_var, remove_var}
use solx_core.Scripts.Stage.{tokenize_stage_args, substitute_vars_in_token}

abbrev pub names : Option Text → Text → Bool
names none x = false
names (some name) x = text_eq x name

module _ (P : Platform) (R : Runner P) where
  open P use {Number}

  -- After a success a variable has the given value.
  abbrev pub Keeps :
      {A : Type 0}
      → Text
      → Option (Value Number)
      → Result (A × Machine P R) (SolxError × Machine P R)
      → Type 0
  Keeps x c (err e) = Unit
  Keeps x c (ok (v, m)) = m.ctx x ≡ c

  pub Keeps-bind :
      {A B : Type 0} (x : Text) (c : Option (Value Number))
      (r : Result (A × Machine P R) (SolxError × Machine P R))
      (k : A × Machine P R → Result (B × Machine P R) (SolxError × Machine P R))
      → Keeps x c r
      → ((v : A) (m : Machine P R) → m.ctx x ≡ c → Keeps x c (k (v, m)))
      → Keeps x c (r >>= k)
  Keeps-bind x c (err e) k h hk = tt
  Keeps-bind x c (ok (v, m)) k h hk = hk v m h

  Keeps-then :
      {A B : Type 0} (x : Text) (c : Option (Value Number))
      (r : Result (A × Machine P R) (SolxError × Machine P R))
      (k : A × Machine P R → Result (B × Machine P R) (SolxError × Machine P R))
      → ((v : A) (m : Machine P R) → Keeps x c (k (v, m)))
      → Keeps x c (r >>= k)
  Keeps-then x c (err e) k hk = tt
  Keeps-then x c (ok (v, m)) k hk = hk v m

  pub Keeps-if :
      {A : Type 0} (x : Text) (c : Option (Value Number)) (b : Bool)
      (r r' : Result (A × Machine P R) (SolxError × Machine P R))
      → Keeps x c r
      → Keeps x c r'
      → Keeps x c (if b then r else r')
  Keeps-if x c true r r' h h' = h
  Keeps-if x c false r r' h h' = h'

  module _ (x : Text) (c : Option (Value Number)) where
    pub pure-Keeps :
        (m : Machine P R) (r : Fallible (Value Number)) → m.ctx x ≡ c → Keeps x c (pure_at P R m r)
    pure-Keeps m (err e) h = tt
    pure-Keeps m (ok v) h = h

    ran-Keeps :
        (m : Machine P R) (r : Fallible (Value Number) × R.World)
        → m.ctx x ≡ c
        → Keeps x c (piped_of P R (ran P R m.ctx r))
    ran-Keeps m (err e, w) h = tt
    ran-Keeps m (ok v, w) h = h

    tokens-Keeps :
        (piped : Option (Value Number)) (m : Machine P R) (r : Fallible (List Text))
        → m.ctx x ≡ c
        → Keeps x c (run_tokens P R piped m r)
    tokens-Keeps piped m (err e) h = tt
    tokens-Keeps piped m (ok []) h = h
    tokens-Keeps piped m (ok (t ∷ ts)) h = ran-Keeps m (R.run (t ∷ ts) piped m.world) h

    stages-Keeps :
        (stages : List Text) (piped : Option (Value Number)) (m : Machine P R)
        → m.ctx x ≡ c
        → Keeps x c (run_stages P R stages piped m)
    unfolding run_stages
    stages-Keeps [] none m h = h
    stages-Keeps [] (some v) m h = h
    stages-Keeps (stage ∷ stages) piped m h =
        let tokens = stage_tokens P R (tokenize_stage_args (trim stage)) m.ctx in
        Keeps-if x c (is_empty (trim stage)) _ _ (stages-Keeps stages piped m h) (
          Keeps-bind x c (run_tokens P R piped m tokens) _ (tokens-Keeps piped m tokens h)
            (λ piped' m' h'. stages-Keeps stages piped' m' h'))

    pub pipeline-Keeps :
        (src : Text) (m : Machine P R) → m.ctx x ≡ c → Keeps x c (execute_pipeline P R src m)
    unfolding execute_pipeline
    pipeline-Keeps src m h = stages-Keeps _ none m h

    pub names-Keeps :
        (name : Option Text) (r : Outcome P R)
        → names name x ≡ false
        → Keeps x c r
        → Keeps x c (with_var P R name r)
    names-Keeps name (err e) h k = tt
    names-Keeps none (ok (v, m)) h k = k
    names-Keeps (some name) (ok (v, m)) h k = rw h k

    items-Keeps : (r : Outcome P R) → Keeps x c r → Keeps x c (items_of P R r)
    items-Keeps (err e) h = tt
    items-Keeps (ok (v, m)) h = h

    source-Keeps :
        (source : ForSource) (m : Machine P R) → m.ctx x ≡ c → Keeps x c (source_items P R source m)
    unfolding source_items
    source-Keeps (range start stop) m h = h
    source-Keeps (from_pipeline src) m h = by_ref (bare_var_ref P R src)
      where
        by_ref :
            (o : Option Text)
            → Keeps x c (elim o [
              | some name ↦ items_of P R (pure_at P R m (eval_source P R (b'$' ∷ name) m.ctx))
              | none ↦ items_of P R (execute_pipeline P R src m)
            ])
        by_ref none = items-Keeps (execute_pipeline P R src m) (pipeline-Keeps src m h)
        by_ref (some name) =
            let r = eval_source P R (b'$' ∷ name) m.ctx in
            items-Keeps (pure_at P R m r) (pure-Keeps m r h)

    pub wait-Keeps :
        (amount : Text) (m : Machine P R) → m.ctx x ≡ c → Keeps x c (exec_wait P R amount m)
    unfolding exec_wait
    wait-Keeps amount m h = by_secs (P.parse_f64 (trim (substitute_vars_in_token P amount m.ctx)))
      where
        by_secs : (o : Option P.Float) → Keeps x c (wait_secs P R m o)
        by_secs none = tt
        by_secs (some f) = Keeps-if x c (P.f64_lt f P.f64_zero) _ _ tt h

    -- A loop over another variable keeps what its body keeps.
    each-Keeps :
        (item : Text) (body : Machine P R → Outcome P R) (vs : Items Number) (last : Value Number)
        (m : Machine P R)
        → text_eq x item ≡ false
        → ((m' : Machine P R) → m'.ctx x ≡ c → Keeps x c (body m'))
        → m.ctx x ≡ c
        → Keeps x c (each P R item body vs last m)
    unfolding each
    each-Keeps item body nil last m other hb h = h
    each-Keeps item body (cons v vs) last m other hb h =
        let m' : Machine P R = record { ctx = set_var P item v m.ctx; world = m.world } in
        Keeps-bind x c (body m') _ (hb m' (rw other h))
          (λ last' m''. each-Keeps item body vs last' m'' other hb)

  restored :
      (item : Text) (o : Option (Value Number)) (ctx : Ctx P) → restore P R item o ctx item ≡ o
  restored item none ctx = rw (text_eq_refl item) refl
  restored item (some v) ctx = rw (text_eq_refl item) refl

  restored_other :
      (x item : Text) (o : Option (Value Number)) (ctx : Ctx P)
      → text_eq x item ≡ false
      → restore P R item o ctx x ≡ ctx x
  restored_other x item none ctx h = rw h refl
  restored_other x item (some v) ctx h = rw h refl

  pub for-Keeps :
      (x : Text) (c : Option (Value Number)) (item : Text) (source : ForSource)
      (body : Machine P R → Outcome P R) (m : Machine P R)
      → (text_eq x item ≡ false → (m' : Machine P R) → m'.ctx x ≡ c → Keeps x c (body m'))
      → m.ctx x ≡ c
      → Keeps x c (exec_for P R item source body m)
  unfolding exec_for
  for-Keeps x c item source body m hb h =
      Keeps-bind x c (source_items P R source m) _ (source-Keeps x c source m h) λ items m₁ h₁.
        let m₂ : Machine P R = record { ctx = remove_var P item m₁.ctx; world = m₁.world } in
        elim (Bool-cases (text_eq x item)) [
          | inl e ↦
              let same = (text_eq_iff x item).0 e in
              Keeps-then x c (each P R item body items null m₂) _ λ last m₃.
                subst (λ y. restore P R item (m₁.ctx item) m₃.ctx y ≡ c) (sym same)
                  (restored item (m₁.ctx item) m₃.ctx ∙ subst (λ y. m₁.ctx y ≡ c) same h₁)
          | inr e ↦
              Keeps-bind x c (each P R item body items null m₂) _
                (each-Keeps x c item body items null m₂ e (hb e) (rw e h₁))
                λ last m₃ h₃. restored_other x item (m₁.ctx item) m₃.ctx e ∙ h₃
        ]
