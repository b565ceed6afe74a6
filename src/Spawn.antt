-- ===== src/Spawn.antt =====
-- src/spawn.rs: how the tmux child is started.
use tmuxctl.Base.{
  ◌≡◌, refl, Option, some, none, List, [], ◌∷◌, ◌++◌, Text, codes, text_eq, if◌then◌else◌, drop,
}

pub record SpawnOpts : Type 0 where
  pub program : Text
  pub socket : Option Text
  pub session : Option Text

-- `Default` and `SpawnOpts::new`
abbrev pub default : SpawnOpts
default = record { program = codes "tmux"; socket = none; session = none }

abbrev pub set_program : Text → SpawnOpts → SpawnOpts
set_program program opts = record opts { program = program }

abbrev pub set_socket : Text → SpawnOpts → SpawnOpts
set_socket socket opts = record opts { socket = some socket }

abbrev pub set_session : Text → SpawnOpts → SpawnOpts
set_session session opts = record opts { session = some session }

option_words : Text → Option Text → List Text
option_words flag none = []
option_words flag (some value) = flag ∷ value ∷ []

unfoldable pub argv : SpawnOpts → List Text
unfolding option_words
argv opts =
    option_words (codes "-L") opts.socket
    ++ (codes "-C" ∷ codes "new-session" ∷ codes "-A" ∷ option_words (codes "-s") opts.session)

-- Reading an option with a value off the front of an argument list.
abbrev pub take_option : Text → List Text → Option Text × List Text
take_option flag (word ∷ value ∷ words) =
    if text_eq word flag then (some value, words) else (none, word ∷ value ∷ words)
take_option flag words = (none, words)

argv-options :
    (socket session : Option Text)
    → let args =
        option_words (codes "-L") socket
        ++ (codes "-C" ∷ codes "new-session" ∷ codes "-A" ∷ option_words (codes "-s") session) in
      let (socket', words) = take_option (codes "-L") args in
      let (session', rest) = take_option (codes "-s") (drop 3 words) in
      (socket' ≡ socket)
      × (session' ≡ session)
      × (rest ≡ [])
      × (words ≡ codes "-C" ∷ codes "new-session" ∷ codes "-A" ∷ drop 3 words)
unfolding option_words
argv-options none none = (refl, refl, refl, refl)
argv-options none (some s) = (refl, refl, refl, refl)
argv-options (some l) none = (refl, refl, refl, refl)
argv-options (some l) (some s) = (refl, refl, refl, refl)

-- The arguments are the server socket's option, if one is set, then the client in control mode,
-- and the subcommand that attaches or creates, then the session's option, if one is set: both
-- values are read back from the arguments, whatever their text, and there is nothing else.
pub argv_lem :
    (opts : SpawnOpts)
    → let (socket, words) = take_option (codes "-L") (argv opts) in
      let (session, rest) = take_option (codes "-s") (drop 3 words) in
      (socket ≡ opts.socket)
      × (session ≡ opts.session)
      × (rest ≡ [])
      × (words ≡ codes "-C" ∷ codes "new-session" ∷ codes "-A" ∷ drop 3 words)
unfolding argv
argv_lem opts = argv-options opts.socket opts.session
