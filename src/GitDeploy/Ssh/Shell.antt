-- ===== src/GitDeploy/Ssh/Shell.antt =====
-- The words that a POSIX shell reads in the command, for git runs GIT_SSH_COMMAND through one.
-- The reader covers blanks, both quotes and characters that mean themselves; on any other it
-- gives up.
use mathlib.Core.Option
use releasepanel_agent.Base.{
  ℕ, ◌≡◌, refl, sym, ◌∙◌, ap, Bool, ◌||◌, ◌&&◌, Option, none, some, List, [], ◌∷◌, ◌++◌, arith,
  if◌then◌else◌, ◌==◌, leb, is_empty, append_assoc, append-nil,
}
use releasepanel_agent.Text.{Text, codes, trim_space}
use releasepanel_agent.FilePath.{clean}
use releasepanel_agent.System.{Result, ok, err}
use releasepanel_agent.GitDeploy.Ssh.{
  replace_quotes, shell_single_quote, host_key_options, with_identity, git_ssh_command,
}

data Mode : Type 0 where
  bare single double : Mode

is_plain : ℕ → Bool
is_plain c =
    (leb b'a' c && leb c b'z')
    || (leb b'A' c && leb c b'Z')
    || (leb b'0' c && leb c b'9')
    || c == b'-'
    || c == b'='
    || c == b'.'
    || c == b'/'
    || c == b'_'

-- What a backslash, a dollar or a backquote starts inside double quotes is not covered.
is_active : ℕ → Bool
is_active c = c == b'$' || c == b'`' || c == b'\\'

begun : Option Text → Text
begun none = []
begun (some w) = w

flush : Option Text → Option (List Text) → Option (List Text)
flush none words = words
flush (some w) words = Option.map (λ ws. w ∷ ws) words

read : Mode → Option Text → Text → Option (List Text)
unfolding flush begun is_plain is_active
read bare none [] = some []
read bare (some w) [] = some (w ∷ [])
read single cur [] = none
read double cur [] = none
read bare cur (c ∷ s) =
    let blank = read bare none s in
    let quoted = read single (some (begun cur)) s in
    let doubled = read double (some (begun cur)) s in
    let plain = read bare (some (begun cur ++ c ∷ [])) s in
    if c == b' '
    then flush cur blank
    else if c == b'\''
    then quoted
    else if c == b'"'
    then doubled
    else if is_plain c
    then plain
    else none
read single cur (c ∷ s) =
    let closed = read bare cur s in
    let longer = read single (some (begun cur ++ c ∷ [])) s in if c == b'\'' then closed else longer
read double cur (c ∷ s) =
    let closed = read bare cur s in
    let longer = read double (some (begun cur ++ c ∷ [])) s in
    if c == b'"' then closed else if is_active c then none else longer

pub shell_words : Text → Option (List Text)
unfolding read
shell_words s = read bare none s

-- A single-quoted text is read back whole, whatever it holds.
read-replace_quotes :
    (w s rest : Text)
    → read single (some w) (replace_quotes s ++ b'\'' ∷ rest) ≡ read bare (some (w ++ s)) rest
unfolding read replace_quotes
read-replace_quotes w [] rest = rw append-nil
read-replace_quotes w (c ∷ s) rest =
    ground (arith, read-replace_quotes (w ++ c ∷ []) s rest, append_assoc w (c ∷ []) s)

-- A quoted text joins the word that stands before it.
read-shell_single_quote :
    (cur : Option Text) (s rest : Text)
    → read bare cur (shell_single_quote s ++ rest) ≡ read bare (some (begun cur ++ s)) rest
unfolding read shell_single_quote
read-shell_single_quote cur s rest =
    rw (append_assoc (replace_quotes s) (codes "'") rest) (read-replace_quotes (begun cur) s rest)

pinned_args : Text → List Text
pinned_args hosts =
    codes "-o"
    ∷ codes "StrictHostKeyChecking=yes"
    ∷ codes "-o"
    ∷ (codes "UserKnownHostsFile=" ++ hosts)
    ∷ []

read_unpinned :
    (w : Text)
    → read bare (some w) (codes " -o StrictHostKeyChecking=accept-new")
      ≡ some (w ∷ codes "-o" ∷ codes "StrictHostKeyChecking=accept-new" ∷ [])
unfolding read
read_unpinned w = refl

read_pinned :
    (w hosts : Text)
    → read bare
        (some w)
        (codes " -o StrictHostKeyChecking=yes -o UserKnownHostsFile=" ++ shell_single_quote hosts)
      ≡ some (w ∷ pinned_args hosts)
unfolding read pinned_args
read_pinned w hosts =
    ap
      (λ (words : Option (List Text)). flush (some w) (
        flush (some (codes "-o"))
          (flush (some (codes "StrictHostKeyChecking=yes")) (flush (some (codes "-o")) words))))
      (ap (read bare (some (codes "UserKnownHostsFile=")))
          (sym (append-nil (shell_single_quote hosts)))
        ∙ read-shell_single_quote (some (codes "UserKnownHostsFile=")) hosts [])

host_args : Text → List Text
unfolding pinned_args
host_args hosts =
    if is_empty hosts
    then codes "-o" ∷ codes "StrictHostKeyChecking=accept-new" ∷ []
    else pinned_args (clean hosts)

read_host_keys :
    (w hosts options : Text)
    → host_key_options hosts ≡ ok options
    → read bare (some w) options ≡ some (w ∷ host_args hosts)
unfolding host_key_options host_args
read_host_keys w hosts options h = ground (arith, read_unpinned w, read_pinned w (clean hosts))

-- The arguments that ssh is to receive.
pub ssh_args : Text → Text → List Text
unfolding host_args
ssh_args key hosts =
    codes "ssh"
    ∷ codes "-i"
    ∷ clean (trim_space key)
    ∷ codes "-o"
    ∷ codes "IdentitiesOnly=yes"
    ∷ host_args (trim_space hosts)

read_identity :
    (key options : Text) (words : List Text)
    → read bare (some (codes "IdentitiesOnly=yes")) options
      ≡ some (codes "IdentitiesOnly=yes" ∷ words)
    → read bare none
        (codes "ssh -i " ++ (shell_single_quote key ++ (codes " -o IdentitiesOnly=yes" ++ options)))
      ≡ some (codes "ssh" ∷ codes "-i" ∷ key ∷ codes "-o" ∷ codes "IdentitiesOnly=yes" ∷ words)
unfolding read
read_identity key options words h =
    ap (λ (ws : Option (List Text)). flush (some (codes "ssh")) (flush (some (codes "-i")) ws))
      (read-shell_single_quote none key (codes " -o IdentitiesOnly=yes" ++ options)
        ∙ ap (λ (ws : Option (List Text)). flush (some key) (flush (some (codes "-o")) ws)) h)

identity_words :
    (key hosts command : Text) (r : Result Text)
    → host_key_options hosts ≡ r
    → with_identity key r ≡ ok command
    → read bare none command
      ≡ some (
          codes "ssh"
          ∷ codes "-i"
          ∷ key
          ∷ codes "-o"
          ∷ codes "IdentitiesOnly=yes"
          ∷ host_args hosts)
unfolding with_identity
identity_words key hosts command (err e) q h = cc
identity_words key hosts command (ok options) q h =
    ground (arith, read_identity key options _ (read_host_keys _ hosts options q))

-- Whatever the paths hold, quotes and blanks included, the shell reads in an accepted command
-- exactly the arguments meant: the cleaned key path, and the host-key options with the cleaned
-- known_hosts path, each as one word.
pub git_ssh_command-words :
    (key hosts : Text) {command : Text}
    → git_ssh_command key hosts ≡ ok command
    → shell_words command ≡ some (ssh_args key hosts)
unfolding git_ssh_command shell_words ssh_args
git_ssh_command-words key hosts {command} h =
    ground (arith, identity_words (clean (trim_space key)) (trim_space hosts) command _ refl)
