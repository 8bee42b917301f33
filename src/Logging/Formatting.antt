-- ===== src/Logging/Formatting.antt =====
-- Lines of the log against their format read as a list of parts.
use vots.Base.{
  ℕ, suc, ◌≡◌, ◌≢◌, refl, sym, ap, subst, ◌∙◌, inl, inr, ◌==◌, Bool, true, false, none, some, List,
  [], ◌∷◌, append-nil, arith, Bool-cases, length, ==_iff,
}
use vots.Runtime.LockFreeQueue.Room.{HasRoom, HasRoom-push, Received, Received-push}
use vots.Logging.{Element, Value, Logger, char, plain, percent, element_of, push_value, log}

-- A character of the line, or the place of an argument.
pub data Part : Type 0 where
  literal : ℕ → Part
  hole : Part

-- `%%` stands for the character `%`, any other `%` is the place of an argument.
unfoldable pub parts : List ℕ → List Part
parts [] = []
parts (c ∷ []) = elim (c == percent) [ true ↦ hole ∷ [] | false ↦ literal c ∷ [] ]
parts (c ∷ next ∷ s) = elim (c == percent) [
  | true ↦ elim (next == percent) [
    | true ↦ literal percent ∷ parts s
    | false ↦ hole ∷ parts (next ∷ s)
  ]
  | false ↦ literal c ∷ parts (next ∷ s)
]

-- The next character is another `%`.
abbrev starts : List ℕ → Bool
starts [] = false
starts (c ∷ s) = c == percent

parts-other : (c : ℕ) (s : List ℕ) → (c == percent) ≡ false → parts (c ∷ s) ≡ literal c ∷ parts s
unfolding parts
parts-other c [] e = rw (e, parts) refl
parts-other c (next ∷ s) e = rw (e, parts) refl

parts-escaped :
    (c next : ℕ) (s : List ℕ)
    → (c == percent) ≡ true
    → (next == percent) ≡ true
    → parts (c ∷ next ∷ s) ≡ literal percent ∷ parts s
unfolding parts
parts-escaped c next s e f = rw (e, f, parts) refl

parts-place :
    (c : ℕ) (s : List ℕ) → (c == percent) ≡ true → starts s ≡ false → parts (c ∷ s) ≡ hole ∷ parts s
unfolding parts
parts-place c [] e f = rw (e, parts) refl
parts-place c (next ∷ s) e f = rw (e, f, parts) refl

abbrev pub holes : List Part → ℕ
holes [] = 0
holes (literal c ∷ ps) = holes ps
holes (hole ∷ ps) = suc (holes ps)

module _ {Float Double : Type 0} where
  -- The elements of a line.
  abbrev pub entries : List Part → List (Value Float Double) → List (Element Float Double)
  entries [] vs = []
  entries (literal c ∷ ps) vs = char c ∷ entries ps vs
  entries (hole ∷ ps) [] = entries ps []
  entries (hole ∷ ps) (v ∷ vs) = element_of v ∷ entries ps vs

  -- A logger that has received elements.
  abbrev pub Logged :
      Logger Float Double → List (Element Float Double) → Logger Float Double → Type 0
  Logged l es l' = Received l.queue es l'.queue × (l'.file ≡ l.file)

  Logged-push :
      (l l' : Logger Float Double) (v : Value Float Double) (es : List (Element Float Double))
      → HasRoom l.queue (suc (length es))
      → Logged (push_value l v) es l'
      → Logged l (element_of v ∷ es) l'
  unfolding push_value
  Logged-push l l' v es room r =
      (Received-push l.queue (element_of v) (length es) es l'.queue room r.0, r.1)

  -- What a call of Log comes to, with the elements that it is to push.
  abbrev pub Logs :
      Logger Float Double
      → List ℕ
      → List (Value Float Double)
      → List (Element Float Double)
      → Type 0
  Logs l s args es = (l' : Logger Float Double) × (log l s args ≡ some l') × Logged l es l'

  push_value-room :
      (l : Logger Float Double) (v : Value Float Double) (n : ℕ)
      → HasRoom l.queue (suc n)
      → HasRoom (push_value l v).queue n
  unfolding push_value
  push_value-room l v n room = HasRoom-push l.queue (element_of v) n room

  log-other :
      (l : Logger Float Double) (c : ℕ) (s : List ℕ) (args : List (Value Float Double))
      → (c == percent) ≡ false
      → log l (c ∷ s) args ≡ log (push_value l (plain (char c))) s args
  unfolding log
  log-other l c [] args e = rw (e, log) refl
  log-other l c (next ∷ s) args e = rw (e, log) refl

  log-escaped :
      (l : Logger Float Double) (c next : ℕ) (s : List ℕ) (args : List (Value Float Double))
      → (c == percent) ≡ true
      → (next == percent) ≡ true
      → log l (c ∷ next ∷ s) args ≡ log (push_value l (plain (char percent))) s args
  unfolding log
  log-escaped l c next s args e f =
      let same : next ≡ percent = (==_iff next percent).0 f in
      rw (e, f, log) (ap (λ n. log (push_value l (plain (char n))) s args) same)

  log-place :
      (l : Logger Float Double) (c : ℕ) (s : List ℕ) (v : Value Float Double)
      (vs : List (Value Float Double))
      → (c == percent) ≡ true
      → starts s ≡ false
      → log l (c ∷ s) (v ∷ vs) ≡ log (push_value l v) s vs
  unfolding log
  log-place l c [] v vs e f = rw (e, log) refl
  log-place l c (next ∷ s) v vs e f = rw (e, f, log) refl

  log-missing :
      (l : Logger Float Double) (c : ℕ) (s : List ℕ)
      → (c == percent) ≡ true
      → starts s ≡ false
      → log l (c ∷ s) [] ≡ none
  unfolding log
  log-missing l c [] e f = rw (e, log) refl
  log-missing l c (next ∷ s) e f = rw (e, f, log) refl

  Logs-then :
      (l : Logger Float Double) (s s' : List ℕ) (args args' : List (Value Float Double))
      (v : Value Float Double) (es : List (Element Float Double))
      → log l s args ≡ log (push_value l v) s' args'
      → HasRoom l.queue (suc (length es))
      → Logs (push_value l v) s' args' es
      → Logs l s args (element_of v ∷ es)
  Logs-then l s s' args args' v es same room (l', done, logged) =
      (l', same ∙ done, Logged-push l l' v es room logged)

module _ (Float Double : Type 0) where
  -- The format is logged as its parts say, from any logger with room.
  abbrev pub LogsParts : List ℕ → List Part → Type 0
  LogsParts s ps =
      (l : Logger Float Double) (args : List (Value Float Double))
      → holes ps ≡ length args
      → HasRoom l.queue (length (entries ps args))
      → Logs l s args (entries ps args)

  LogsParts-place :
      (c : ℕ) (s : List ℕ)
      → (c == percent) ≡ true
      → starts s ≡ false
      → LogsParts s (parts s)
      → LogsParts (c ∷ s) (hole ∷ parts s)
  LogsParts-place c s e f ih l [] h room = absurd (omega arith)
  LogsParts-place c s e f ih l (v ∷ vs) h room =
      Logs-then l (c ∷ s) s (v ∷ vs) vs v (entries (parts s) vs) (log-place l c s v vs e f) room (
        ih (push_value l v) vs (omega arith)
          (push_value-room l v (length (entries (parts s) vs)) room))

  LogsParts-literal :
      (c : ℕ) (s s' : List ℕ)
      → ((l : Logger Float Double) (args : List (Value Float Double))
          → log l s args ≡ log (push_value l (plain (char c))) s' args)
      → LogsParts s' (parts s')
      → LogsParts s (literal c ∷ parts s')
  unfolding element_of
  LogsParts-literal c s s' same ih l args h room =
      Logs-then l s s' args args (plain (char c)) (entries (parts s') args) (same l args) room (
        ih (push_value l (plain (char c))) args h
          (push_value-room l (plain (char c)) (length (entries (parts s') args)) room))

  LogsParts-nil : LogsParts [] (parts [])
  unfolding log parts
  LogsParts-nil l [] h room = (l, refl, ((sym (append-nil _), room.0), refl))
  LogsParts-nil l (v ∷ vs) h room = absurd (omega arith)

  -- A line with as many places as arguments is queued by its parts, and the file is not touched.
  pub log-Logs : (s : List ℕ) → LogsParts s (parts s)
  log-Logs [] = LogsParts-nil
  log-Logs (c ∷ []) = elim (Bool-cases (c == percent)) [
    | inr other ↦
        subst (LogsParts (c ∷ [])) (sym (parts-other c [] other))
          (LogsParts-literal c (c ∷ []) [] (λ l args. log-other l c [] args other) (log-Logs []))
    | inl place ↦
        subst (LogsParts (c ∷ [])) (sym (parts-place c [] place refl))
          (LogsParts-place c [] place refl (log-Logs []))
  ]
  log-Logs (c ∷ next ∷ s) = elim (Bool-cases (c == percent)) [
    | inr other ↦ subst (LogsParts (c ∷ next ∷ s)) (sym (parts-other c (next ∷ s) other)) (
        LogsParts-literal c (c ∷ next ∷ s) (next ∷ s)
          (λ l args. log-other l c (next ∷ s) args other) (log-Logs (next ∷ s)))
    | inl place ↦ elim (Bool-cases (next == percent)) [
      | inl escape ↦ subst (LogsParts (c ∷ next ∷ s)) (sym (parts-escaped c next s place escape)) (
          LogsParts-literal percent (c ∷ next ∷ s) s
            (λ l args. log-escaped l c next s args place escape) (log-Logs s))
      | inr single ↦
          subst (LogsParts (c ∷ next ∷ s)) (sym (parts-place c (next ∷ s) place single))
            (LogsParts-place c (next ∷ s) place single (log-Logs (next ∷ s)))
    ]
  ]

  -- The format does not fit the arguments: the process ends.
  abbrev Refuses : List ℕ → List Part → Type 0
  Refuses s ps =
      (l : Logger Float Double) (args : List (Value Float Double))
      → holes ps ≢ length args
      → log l s args ≡ none

  Refuses-place :
      (c : ℕ) (s : List ℕ)
      → (c == percent) ≡ true
      → starts s ≡ false
      → Refuses s (parts s)
      → Refuses (c ∷ s) (hole ∷ parts s)
  Refuses-place c s e f ih l [] h = log-missing l c s e f
  Refuses-place c s e f ih l (v ∷ vs) h =
      log-place l c s v vs e f ∙ ih (push_value l v) vs (λ same. h (ap suc same))

  Refuses-nil : Refuses [] (parts [])
  unfolding log parts
  Refuses-nil l [] h = absurd (h refl)
  Refuses-nil l (v ∷ vs) h = refl

  log-Refuses : (s : List ℕ) → Refuses s (parts s)
  log-Refuses [] = Refuses-nil
  log-Refuses (c ∷ []) = elim (Bool-cases (c == percent)) [
    | inr other ↦
        subst (Refuses (c ∷ [])) (sym (parts-other c [] other))
          (λ l args h. log-other l c [] args other ∙ log-Refuses [] _ args h)
    | inl place ↦
        subst (Refuses (c ∷ [])) (sym (parts-place c [] place refl))
          (Refuses-place c [] place refl (log-Refuses []))
  ]
  log-Refuses (c ∷ next ∷ s) = elim (Bool-cases (c == percent)) [
    | inr other ↦
        subst (Refuses (c ∷ next ∷ s)) (sym (parts-other c (next ∷ s) other))
          (λ l args h. log-other l c (next ∷ s) args other ∙ log-Refuses (next ∷ s) _ args h)
    | inl place ↦ elim (Bool-cases (next == percent)) [
      | inl escape ↦
          subst (Refuses (c ∷ next ∷ s)) (sym (parts-escaped c next s place escape))
            (λ l args h. log-escaped l c next s args place escape ∙ log-Refuses s _ args h)
      | inr single ↦
          subst (Refuses (c ∷ next ∷ s)) (sym (parts-place c (next ∷ s) place single))
            (Refuses-place c (next ∷ s) place single (log-Refuses (next ∷ s)))
    ]
  ]

-- Log ends the process whenever its format has more or fewer places than there are arguments.
pub log_refuses :
    {Float Double : Type 0}
    → (s : List ℕ) (l : Logger Float Double) (args : List (Value Float Double))
    → holes (parts s) ≢ length args
    → log l s args ≡ none
log_refuses {Float} {Double} s l args h = log-Refuses Float Double s l args h
