-- ===== src/Exec/Shell/Laws.antt =====
-- internal/exec/kubeexec.go: what a shell reads in the command lines.
use cloud_agent_sandbox.Base.{
  ℕ, ◌≡◌, ◌≢◌, refl, sym, ap, ◌∙◌, Option, none, some, List, [], ◌∷◌, ◌++◌, append-nil,
  append_assoc, map, Text, bytes, ◌==◌, nat_eq, text_eq, arith, list_beq, Bool-cases, inl, inr,
}
use cloud_agent_sandbox.Session.Model.{ok}
use cloud_agent_sandbox.Exec.Model.{Command}
use cloud_agent_sandbox.Exec.Shell.{
  escape, shell_quote, join_spaces, shell_join, in_directory, shell_argv, argv_in, command_argv,
  command_line,
}
use cloud_agent_sandbox.Exec.Shell.Reading.{
  Token, word, and_if, Mode, blank, bare, quoted, escaped, ampersand, is_plain, next, prepend, read,
}

prepend_nil : (o : Option (List Token)) → prepend [] o ≡ o
prepend_nil none = refl
prepend_nil (some ts) = refl

prepend_twice :
    (ts us : List Token) (o : Option (List Token))
    → prepend ts (prepend us o) ≡ prepend (ts ++ us) o
prepend_twice ts us none = refl
prepend_twice ts us (some vs) = ap some (sym (append_assoc ts us vs))

read-cons :
    (m : Mode) (c : ℕ) (s : Text)
    → read m (c ∷ s) ≡ elim (next m c) [ none ↦ none | some p ↦ prepend p.0 (read p.1 s) ]
unfolding read
read-cons blank c s = refl
read-cons (bare w) c s = refl
read-cons (quoted w) c s = refl
read-cons (escaped w) c s = refl
read-cons ampersand c s = refl

-- A byte that ends no token.
quiet : (m m' : Mode) (c : ℕ) (s : Text) → next m c ≡ some ([], m') → read m (c ∷ s) ≡ read m' s
quiet m m' c s h = read-cons m c s ∙ rw h (prepend_nil (read m' s))

-- A text between quotes, read to the closing quote.
read-escape : (s w t : Text) → read (quoted w) (escape s ++ (b'\'' ∷ t)) ≡ read (bare (w ++ s)) t
unfolding next escape
read-escape [] w t =
    quiet (quoted w) (bare w) b'\'' t refl ∙ ap (λ v. read (bare v) t) (sym (append-nil w))
read-escape (c ∷ s) w t = elim (Bool-cases (c == b'\'')) [
  | inl e ↦
      let rest = escape s ++ (b'\'' ∷ t) in
      rw e (
        quiet (quoted w) (bare w) b'\'' _ refl
        ∙ quiet (bare w) (escaped w) b'\\' _ refl
        ∙ quiet (escaped w) (bare (w ++ (b'\'' ∷ []))) b'\'' _ refl
        ∙ quiet (bare (w ++ (b'\'' ∷ []))) (quoted (w ++ (b'\'' ∷ []))) b'\'' rest refl
        ∙ read-escape s (w ++ (b'\'' ∷ [])) t
        ∙ ap (λ v. read (bare v) t)
            (append_assoc w (b'\'' ∷ []) s
              ∙ ap (λ d. w ++ (d ∷ s)) (sym ((nat_eq.beq_iff c b'\'').0 e))))
  | inr e ↦ rw e (
      quiet (quoted w) (quoted (w ++ (c ∷ []))) c _ (rw e refl)
      ∙ read-escape s (w ++ (c ∷ [])) t
      ∙ ap (λ v. read (bare v) t) (append_assoc w (c ∷ []) s))
]

read-quote : (s t : Text) → read blank (shell_quote s ++ t) ≡ read (bare s) t
unfolding shell_quote next list_beq
read-quote [] t = quiet blank (quoted []) b'\'' _ refl ∙ quiet (quoted []) (bare []) b'\'' t refl
read-quote (c ∷ s) t =
    ap (λ u. read blank (b'\'' ∷ u)) (append_assoc (escape (c ∷ s)) (b'\'' ∷ []) t)
    ∙ quiet blank (quoted []) b'\'' _ refl
    ∙ read-escape (c ∷ s) [] t

-- A space behind a word ends it.
read_space : (w t : Text) → read (bare w) (b' ' ∷ t) ≡ prepend (word w ∷ []) (read blank t)
unfolding next
read_space w t = read-cons (bare w) b' ' t

-- A shell reads the joined arguments back as exactly these words, whatever bytes they hold.
pub read-join : (argv : List Text) → read blank (shell_join argv) ≡ some (map word argv)
unfolding shell_join join_spaces read
read-join [] = refl
read-join (w ∷ []) = ap (read blank) (sym (append-nil (shell_quote w))) ∙ read-quote w []
read-join (w ∷ v ∷ ws) =
    ap (read blank) (append_assoc (shell_quote w) (bytes " ") (shell_join (v ∷ ws)))
    ∙ read-quote w (b' ' ∷ shell_join (v ∷ ws))
    ∙ read_space w (shell_join (v ∷ ws))
    ∙ ap (prepend (word w ∷ [])) (read-join (v ∷ ws))

-- `cd '...' && ` in front of a line.
read-cd :
    (t : Text) → read blank (bytes "cd " ++ t) ≡ prepend (word (bytes "cd") ∷ []) (read blank t)
unfolding next is_plain
read-cd t =
    quiet blank (bare (bytes "c")) b'c' _ refl
    ∙ quiet (bare (bytes "c")) (bare (bytes "cd")) b'd' _ refl
    ∙ read_space (bytes "cd") t

read_and_if :
    (w t : Text) → read (bare w) (bytes " && " ++ t) ≡ prepend (word w ∷ and_if ∷ []) (read blank t)
unfolding next
read_and_if w t =
    read_space w (bytes "&& " ++ t)
    ∙ ap (prepend (word w ∷ [])) (
        quiet blank ampersand b'&' _ refl
        ∙ read-cons ampersand b'&' (b' ' ∷ t)
        ∙ ap (prepend (and_if ∷ [])) (quiet blank blank b' ' t refl))
    ∙ prepend_twice (word w ∷ []) (and_if ∷ []) (read blank t)

read-exec :
    (t : Text) → read blank (bytes "exec " ++ t) ≡ prepend (word (bytes "exec") ∷ []) (read blank t)
unfolding next is_plain
read-exec t =
    quiet blank (bare (bytes "e")) b'e' _ refl
    ∙ quiet (bare (bytes "e")) (bare (bytes "ex")) b'x' _ refl
    ∙ quiet (bare (bytes "ex")) (bare (bytes "exe")) b'e' _ refl
    ∙ quiet (bare (bytes "exe")) (bare (bytes "exec")) b'c' _ refl
    ∙ read_space (bytes "exec") t

-- What a shell reads in front of the line.
abbrev pub entering : Text → List Token
entering cwd = word (bytes "cd") ∷ word cwd ∷ and_if ∷ []

read-directory :
    (cwd t : Text)
    → read blank (bytes "cd " ++ shell_quote cwd ++ bytes " && " ++ t)
      ≡ prepend (entering cwd) (read blank t)
read-directory cwd t =
    ap (λ u. read blank (bytes "cd " ++ u)) (append_assoc (shell_quote cwd) (bytes " && ") t)
    ∙ read-cd (shell_quote cwd ++ (bytes " && " ++ t))
    ∙ ap (prepend (word (bytes "cd") ∷ [])) (read-quote cwd (bytes " && " ++ t) ∙ read_and_if cwd t)
    ∙ prepend_twice (word (bytes "cd") ∷ []) (word cwd ∷ and_if ∷ []) (read blank t)

-- The line that commandArgv makes of arguments and a directory.
exec_line :
    (cwd : Text) (argv : List Text)
    → read blank (bytes "cd " ++ shell_quote cwd ++ bytes " && exec " ++ shell_join argv)
      ≡ some (entering cwd ++ (word (bytes "exec") ∷ map word argv))
exec_line cwd argv =
    let front = bytes "cd " ++ shell_quote cwd in
    ap (read blank) (
      append_assoc front (bytes " && exec ") (shell_join argv)
      ∙ sym (append_assoc front (bytes " && ") (bytes "exec " ++ shell_join argv)))
    ∙ read-directory cwd (bytes "exec " ++ shell_join argv)
    ∙ ap (prepend (entering cwd))
        (read-exec (shell_join argv) ∙ ap (prepend (word (bytes "exec") ∷ [])) (read-join argv))

argv_in-read :
    (argv : List Text) (cwd : Text)
    → argv ≢ []
    → cwd ≢ []
    → (line : Text) × (argv_in argv cwd ≡ ok (shell_argv line))
      × (read blank line ≡ some (entering cwd ++ (word (bytes "exec") ∷ map word argv)))
unfolding argv_in
argv_in-read [] cwd a d = absurd (a refl)
argv_in-read (a ∷ rest) cwd h d = (
  bytes "cd " ++ shell_quote cwd ++ bytes " && exec " ++ shell_join (a ∷ rest),
  ground (arith, d, text_eq.beq_iff cwd []),
  exec_line cwd (a ∷ rest),
)

-- A command given by its arguments, with a directory, becomes a line in which a shell reads a
-- change to exactly that directory and then `exec` with exactly those arguments, whatever bytes
-- they hold.
pub command_argv-read :
    (cmd : Command)
    → cmd.line ≡ []
    → cmd.argv ≢ []
    → cmd.cwd ≢ []
    → (line : Text) × (command_argv cmd ≡ ok (shell_argv line))
      × (read blank line ≡ some (entering cmd.cwd ++ (word (bytes "exec") ∷ map word cmd.argv)))
unfolding command_argv
command_argv-read cmd l a d =
    let (line, made, meant) = argv_in-read cmd.argv cmd.cwd a d in
    (line, ground (arith, l, text_eq.beq_iff cmd.line [], made), meant)

-- A command line, with a directory, becomes one in which a shell reads a change to exactly that
-- directory and then what it reads in the line itself.
pub command_line-read :
    (cmd : Command)
    → cmd.line ≢ []
    → cmd.cwd ≢ []
    → (line : Text) × (command_argv cmd ≡ ok (shell_argv line))
      × (command_line cmd ≡ ok line)
      × (read blank line ≡ prepend (entering cmd.cwd) (read blank cmd.line))
unfolding command_argv command_line in_directory
command_line-read cmd l d =
    let line = bytes "cd " ++ shell_quote cmd.cwd ++ bytes " && " ++ cmd.line in
    (
      line,
      ground (arith, l, d, text_eq.beq_iff cmd.line [], text_eq.beq_iff cmd.cwd []),
      ground (arith, l, d, text_eq.beq_iff cmd.line [], text_eq.beq_iff cmd.cwd []),
      read-directory cmd.cwd cmd.line,
    )
