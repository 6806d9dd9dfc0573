-- ===== src/Cli.antt =====
-- What the programs use of urfave/cli: tables of flags, commands with an action, and `App.Run`. The
-- texts of the help are left out.
use beluuga.Prelude.{ℕ, Bool, String, List, Option, none, some, ◌≡◌, ◌⊎◌, inl, inr, Memᴰ, refl, ap}
use beluuga.Prelude.Int.{ℤ}
use beluuga.Errors.{Error, Result, ok, err}
use beluuga.Go.Script.{Script}
use beluuga.Go.Outcome.{Outcome, returned, panicked, exited, blocked, returned-injective}

-- The type of a flag, with its default value where it has one.
pub data Kind : Type 0 where
  string_flag : Kind
  path_flag : Kind
  int_flag : ℤ → Kind
  uint_flag : ℕ → Kind

pub record Flag : Type 0 where
  pub name : String
  pub aliases : List String
  pub kind : Kind
  pub required : Bool
  pub env_vars : List String

pub record Command (Context A : Type 0) : Type 0 where
  pub name : String
  pub flags : List Flag
  pub action : Context → A

-- `Context` is the parsed command line. `run` is `App.Run` of a program with commands, `run_app` that of
-- a program with an action of its own. Both show the help or refuse the command line, or call an action;
-- documented of them is that the action is the program's or that of one of its commands, on a context
-- that its flags were parsed into.
pub record Cli : Type 1 where
  pub Context : Type 0
  pub string : String → Context → String
  pub int : String → Context → ℤ
  pub Parses : List Flag → List String → Context → Type 0
  pub run : {A : Type 0} → List (Command Context A) → List String → Option Error ⊎ A
  pub run-calls :
      {A : Type 0} (commands : List (Command Context A)) (args : List String) (a : A)
      → run commands args ≡ inr a
      → (c : Command Context A) × Memᴰ c commands
        × (ctx : Context) × Parses c.flags args ctx
        × (c.action ctx ≡ a)
  pub run_app : {A : Type 0} → Command Context A → List String → Option Error ⊎ A
  pub run_app-calls :
      {A : Type 0} (app : Command Context A) (args : List String) (a : A)
      → run_app app args ≡ inr a
      → (ctx : Context) × Parses app.flags args ctx × (app.action ctx ≡ a)

-- Two contexts hold the same values for the flags of a table.
abbrev pub AgreeOn : (cli : Cli) → List Flag → cli.Context → cli.Context → Type 0
AgreeOn cli flags ctx ctx' =
    (f : Flag)
    → Memᴰ f flags
    → (cli.string f.name ctx ≡ cli.string f.name ctx') × (cli.int f.name ctx ≡ cli.int f.name ctx')

-- `log.Fatalln` on the error of an action.
abbrev pub fatalln : {W : Type 0} → Outcome (W × Result (Unit {0})) → Outcome W
fatalln (returned (w, ok _)) = returned w
fatalln (returned (w, err e)) = exited
fatalln panicked = panicked
fatalln exited = exited
fatalln blocked = blocked

-- The same of `app.Run`: help leaves the world as it is.
abbrev pub or_fatalln :
    {W A : Type 0} → W → (A → Outcome (W × Result (Unit {0}))) → Option Error ⊎ A → Outcome W
or_fatalln w run (inl none) = returned w
or_fatalln w run (inl (some e)) = exited
or_fatalln w run (inr a) = fatalln (run a)

fatalln-returned :
    {W : Type 0} (o : Outcome (W × Result (Unit {0}))) {w' : W}
    → fatalln o ≡ returned w'
    → o ≡ returned (w', ok tt)
fatalln-returned (returned (w, ok _)) h = ap (λ u. returned (u, ok tt)) (returned-injective h)
fatalln-returned (returned (w, err e)) h = absurd cc
fatalln-returned panicked h = absurd cc
fatalln-returned exited h = absurd cc
fatalln-returned blocked h = absurd cc

-- A process that ends by itself has shown the help, or its action came to an end without an error.
or_fatalln-returned :
    {W A : Type 0} (w : W) (run : A → Outcome (W × Result (Unit {0}))) (r : Option Error ⊎ A)
    {w' : W}
    → or_fatalln w run r ≡ returned w'
    → ((r ≡ inl none) × (w ≡ w')) ⊎ ((a : A) × (r ≡ inr a) × (run a ≡ returned (w', ok tt)))
or_fatalln-returned w run (inl none) h = inl (refl, returned-injective h)
or_fatalln-returned w run (inl (some e)) h = absurd cc
or_fatalln-returned w run (inr a) h = inr (a, refl, fatalln-returned (run a) h)

module _ (cli : Cli) {W : Type 0}
    (commands : List (Command cli.Context (Script W (Unit {0})))) where
  -- `main` of a program with these commands.
  abbrev pub run_commands : List String → W → Outcome W
  run_commands args w = or_fatalln w (λ script. script w) (cli.run commands args)

  -- A program that ends by itself has shown the help, or one of its commands came to its end without an
  -- error, on a context that its flags were parsed into.
  pub run_commands-returned :
      (args : List String) (w : W) {w' : W}
      → run_commands args w ≡ returned w'
      → (w ≡ w')
        ⊎ ((c : Command cli.Context (Script W (Unit {0}))) × Memᴰ c commands
            × (ctx : cli.Context) × cli.Parses c.flags args ctx
            × (c.action ctx w ≡ returned (w', ok tt)))
  run_commands-returned args w h =
      elim (or_fatalln-returned w (λ script. script w) (cli.run commands args) h) [
        | inl (_, same) ↦ inl same
        | inr (script, ran, done) ↦
            let (c, mem, ctx, parsed, is_script) = cli.run-calls commands args script ran in
            inr (c, mem, ctx, parsed, rw is_script done)
      ]
