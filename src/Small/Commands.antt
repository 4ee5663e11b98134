-- ===== src/Small/Commands.antt =====
-- `CommandBuilder` and `eval` of redis_cli/main.cpp. A command is the list of its words. In which order the
-- words of the pack are evaluated is up to the compiler: `words` is them in that order.
use mathlib.Core.List.{append_assoc, reverse-append, reverse-reverse, append-nil}
use tools_demo.Base.{ℕ, ◌≡◌, sym, ap, ◌∙◌, List, [], ◌∷◌, ◌++◌, reverse}

-- `operator<<`
unfoldable pub push_word : List ℕ → List (List ℕ) → List (List ℕ)
push_word word commands = commands ++ word ∷ []

unfoldable pub push_words : List (List ℕ) → List (List ℕ) → List (List ℕ)
push_words [] commands = commands
push_words (w ∷ ws) commands = push_words ws (push_word w commands)

-- `eval::operator()`
unfoldable pub eval : List (List ℕ) → List ℕ → List (List ℕ)
eval words script = reverse (push_word script (push_words words []))

push_words_lem : (ws cs : List (List ℕ)) → push_words ws cs ≡ cs ++ ws
unfolding push_words push_word
push_words_lem [] cs = sym (append-nil cs)
push_words_lem (w ∷ ws) cs = push_words_lem ws (cs ++ w ∷ []) ∙ append_assoc cs (w ∷ []) ws

-- A compiler that evaluates the pack from the right makes the command of the script and the arguments in
-- their order. One that evaluates it from the left makes it of the script and the arguments backwards.
pub eval_order :
    (args : List (List ℕ)) (script : List ℕ)
    → (eval (reverse args) script ≡ script ∷ args) × (eval args script ≡ script ∷ reverse args)
unfolding eval push_word
eval_order args script =
    (ordered (reverse args) ∙ ap (λ l. script ∷ l) (reverse-reverse args), ordered args)
  where
    ordered : (ws : List (List ℕ)) → reverse (push_words ws [] ++ script ∷ []) ≡ script ∷ reverse ws
    ordered ws =
        ap (λ l. reverse (l ++ script ∷ [])) (push_words_lem ws [])
        ∙ reverse-append ws (script ∷ [])
