-- ===== src/Executor/Patterns.antt =====
-- The patterns of internal/executor/executor.go, in the order and under the spelling of the source.
use cloudnan_agent.Base.{
  ℕ, Bool, false, not, ◌&&◌, ◌||◌, List, [], ◌∷◌, ◌==◌, within, if◌then◌else◌, map, Bytes, codes,
}
use cloudnan_agent.Text.Case.{lower_byte}
use cloudnan_agent.Text.Regex.{Regex, empty, class, seq, alt, star, word_boundary, text_end}

unfoldable pub one_of : Bytes → ℕ → Bool
one_of [] c = false
one_of (b ∷ bs) c = c == b || one_of bs c

abbrev pub byte : ℕ → Regex
byte b = class (λ c. c == b)

abbrev pub chain : List Regex → Regex
chain [] = empty
chain (r ∷ []) = r
chain (r ∷ q ∷ rs) = seq r (chain (q ∷ rs))

abbrev pub any_of : Regex → List Regex → Regex
any_of r [] = r
any_of r (q ∷ rs) = alt r (any_of q rs)

abbrev pub plus : Regex → Regex
plus r = seq r (star r)

abbrev pub opt : Regex → Regex
opt r = alt r empty

abbrev pub literal : Bytes → Regex
literal s = chain (map byte s)

-- What `(?i)` adds to `s` and `k` outside ASCII: U+017F and U+212A.
abbrev pub long_s : Regex
long_s = chain (byte 0xC5 ∷ byte 0xBF ∷ [])

abbrev pub kelvin : Regex
kelvin = chain (byte 0xE2 ∷ byte 0x84 ∷ byte 0xAA ∷ [])

-- A byte of a text in lower case under `(?i)`.
unfoldable pub fold : ℕ → Regex
unfolding lower_byte
fold b =
    let same = class (λ c. lower_byte c == b) in
    if b == b's' then alt same long_s else if b == b'k' then alt same kelvin else same

unfoldable pub folded : Bytes → Regex
unfolding fold
folded s = chain (map fold s)

-- `[a-z]` and `[a-zA-Z]` under `(?i)`, and with more bytes.
unfoldable pub letter : ℕ → Bool
unfolding lower_byte
letter c = within b'a' b'z' (lower_byte c)

abbrev pub letter_or : (ℕ → Bool) → Regex
letter_or f = any_of (class (λ c. letter c || f c)) (long_s ∷ kelvin ∷ [])

abbrev pub letters : Regex
letters = star (letter_or (λ c. false))

-- `\s`.
unfoldable pub blank : ℕ → Bool
blank c = c == b' ' || c == 9 || c == 10 || c == 12 || c == 13

abbrev pub space : Regex
space = class blank

abbrev pub spaces : Regex
spaces = star space

-- `[^|;&\n]`.
unfoldable pub in_command : ℕ → Bool
unfolding one_of
in_command c = not (one_of (codes "|;&") c) && not (c == 10)

abbrev pub filler : Regex
filler = star (class in_command)

abbrev pub digit : Regex
digit = class (within b'0' b'9')

-- `-[a-z]*\s+`, any number of times.
abbrev pub flags : Regex
flags = star (chain (byte b'-' ∷ letters ∷ plus space ∷ []))

-- `(?:\s|$|['"])`.
abbrev pub word_over : Regex
word_over = any_of space (text_end ∷ class (λ c. c == 39 || c == 34) ∷ [])

-- `(?:sd[a-z]+|nvme|vd[a-z]+|xvd[a-z]+|disk\d+)` under `(?i)`.
abbrev pub disk : Regex
disk = any_of (seq (folded (codes "sd")) (plus (letter_or (λ c. false)))) (
    folded (codes "nvme")
    ∷ seq (folded (codes "vd")) (plus (letter_or (λ c. false)))
    ∷ seq (folded (codes "xvd")) (plus (letter_or (λ c. false)))
    ∷ seq (folded (codes "disk")) (plus digit)
    ∷ [])

-- The same with letter case.
abbrev pub exact_disk : Regex
exact_disk =
    let lower = plus (class (within b'a' b'z')) in
    any_of (seq (literal (codes "sd")) lower) (
      literal (codes "nvme")
      ∷ seq (literal (codes "vd")) lower
      ∷ seq (literal (codes "xvd")) lower
      ∷ seq (literal (codes "disk")) (plus digit)
      ∷ [])

abbrev pub words_of : Bytes → List Bytes → Regex
words_of s rest = any_of (folded s) (map folded rest)

-- `-[a-zA-Z]*[xX][a-zA-Z]*[yY][a-zA-Z]*`.
abbrev pub two_flags : ℕ → ℕ → Regex
two_flags x y = chain (byte b'-' ∷ letters ∷ fold x ∷ letters ∷ fold y ∷ letters ∷ [])

abbrev pub rm_root : ℕ → ℕ → Regex
rm_root x y = chain (
    word_boundary
    ∷ folded (codes "rm")
    ∷ word_boundary
    ∷ filler
    ∷ two_flags x y
    ∷ filler
    ∷ space
    ∷ byte b'/'
    ∷ word_over
    ∷ [])

abbrev pub rm_system : Regex
rm_system = chain (
    word_boundary
    ∷ folded (codes "rm")
    ∷ word_boundary
    ∷ filler
    ∷ byte b'-'
    ∷ plus (class (λ c. one_of (codes "rfa") (lower_byte c)))
    ∷ filler
    ∷ space
    ∷ byte b'/'
    ∷ words_of (codes "etc") (
        codes "usr"
        ∷ codes "bin"
        ∷ codes "sbin"
        ∷ codes "lib"
        ∷ codes "lib64"
        ∷ codes "boot"
        ∷ codes "var"
        ∷ codes "home"
        ∷ codes "root"
        ∷ [])
    ∷ opt (byte b'/')
    ∷ word_over
    ∷ [])

abbrev pub dd_disk : Regex
dd_disk = chain (
    word_boundary
    ∷ folded (codes "dd")
    ∷ word_boundary
    ∷ filler
    ∷ word_boundary
    ∷ folded (codes "of=/dev/")
    ∷ disk
    ∷ [])

abbrev pub mkfs_disk : Regex
mkfs_disk = chain (
    word_boundary
    ∷ folded (codes "mkfs")
    ∷ opt (seq (byte b'.') (plus (letter_or (within b'0' b'9'))))
    ∷ plus space
    ∷ folded (codes "/dev/")
    ∷ disk
    ∷ [])

abbrev pub on_device : Bytes → Regex
on_device tool =
    chain (word_boundary ∷ folded tool ∷ plus space ∷ flags ∷ folded (codes "/dev/") ∷ [])

abbrev pub fork_bomb : Regex
fork_bomb = chain (
    byte b':'
    ∷ spaces
    ∷ byte b'('
    ∷ spaces
    ∷ byte b')'
    ∷ spaces
    ∷ byte b'{'
    ∷ spaces
    ∷ byte b':'
    ∷ spaces
    ∷ byte b'|'
    ∷ spaces
    ∷ byte b':'
    ∷ spaces
    ∷ byte b'&'
    ∷ spaces
    ∷ byte b'}'
    ∷ spaces
    ∷ byte b';'
    ∷ spaces
    ∷ byte b':'
    ∷ [])

abbrev pub to_disk : Regex
to_disk = chain (byte b'>' ∷ spaces ∷ literal (codes "/dev/") ∷ exact_disk ∷ [])

abbrev pub recursive : Regex
recursive = opt (seq (folded (codes "-r")) (plus space))

abbrev pub chmod_system : Regex
chmod_system = chain (
    word_boundary
    ∷ folded (codes "chmod")
    ∷ plus space
    ∷ recursive
    ∷ words_of (codes "000") (codes "777" ∷ [])
    ∷ plus space
    ∷ byte b'/'
    ∷ any_of space (
        text_end
        ∷ words_of (codes "etc") (
            codes "usr"
            ∷ codes "bin"
            ∷ codes "sbin"
            ∷ codes "lib"
            ∷ codes "lib64"
            ∷ codes "boot"
            ∷ codes "var"
            ∷ [])
        ∷ [])
    ∷ [])

abbrev pub chown_system : Regex
chown_system = chain (
    word_boundary
    ∷ folded (codes "chown")
    ∷ plus space
    ∷ recursive
    ∷ plus (letter_or (λ c. within b'0' b'9' c || one_of (codes "._:-") c))
    ∷ plus space
    ∷ byte b'/'
    ∷ words_of (codes "etc")
        (codes "usr" ∷ codes "boot" ∷ codes "sbin" ∷ codes "bin" ∷ codes "lib" ∷ codes "lib64" ∷ [])
    ∷ spaces
    ∷ alt space text_end
    ∷ [])

abbrev pub rm_sudoers : Regex
rm_sudoers = chain (
    word_boundary
    ∷ folded (codes "rm")
    ∷ plus space
    ∷ flags
    ∷ folded (codes "/etc/sudoers")
    ∷ opt (folded (codes ".d"))
    ∷ word_boundary
    ∷ [])

abbrev pub to_sudoers : Regex
to_sudoers = chain (byte b'>' ∷ spaces ∷ folded (codes "/etc/sudoers") ∷ word_boundary ∷ [])

abbrev pub rm_keys : Regex
rm_keys = chain (
    word_boundary
    ∷ folded (codes "rm")
    ∷ plus space
    ∷ flags
    ∷ star (class (λ c. not (blank c)))
    ∷ folded (codes "/.ssh/authorized_keys")
    ∷ word_boundary
    ∷ [])

abbrev pub halt_host : Regex
halt_host = chain (
    word_boundary
    ∷ any_of (folded (codes "shutdown")) (
        folded (codes "poweroff")
        ∷ folded (codes "halt")
        ∷ folded (codes "reboot")
        ∷ chain (folded (codes "init") ∷ plus space ∷ byte b'0' ∷ [])
        ∷ chain (folded (codes "init") ∷ plus space ∷ byte b'6' ∷ [])
        ∷ chain (folded (codes "telinit") ∷ plus space ∷ byte b'0' ∷ [])
        ∷ chain (folded (codes "telinit") ∷ plus space ∷ byte b'6' ∷ [])
        ∷ [])
    ∷ word_boundary
    ∷ [])

abbrev pub agent_name : Bytes
agent_name = codes "cloudnan-agent"

abbrev pub stop_agent : Regex
stop_agent = chain (
    word_boundary
    ∷ folded (codes "systemctl")
    ∷ plus space
    ∷ words_of (codes "disable") (codes "stop" ∷ codes "mask" ∷ [])
    ∷ plus space
    ∷ folded agent_name
    ∷ word_boundary
    ∷ [])

abbrev pub remove_agent : Regex
remove_agent = chain (
    word_boundary
    ∷ any_of (seq (folded (codes "apt")) (opt (folded (codes "-get"))))
        (folded (codes "yum") ∷ folded (codes "dnf") ∷ folded (codes "zypper") ∷ [])
    ∷ plus space
    ∷ words_of (codes "remove") (codes "purge" ∷ codes "erase" ∷ [])
    ∷ plus space
    ∷ opt (seq (star (class (λ c. not (one_of (codes "&;|") c)))) (plus space))
    ∷ folded agent_name
    ∷ word_boundary
    ∷ [])

abbrev pub flush_rules : Regex
flush_rules = chain (
    word_boundary
    ∷ folded (codes "iptables")
    ∷ plus space
    ∷ flags
    ∷ folded (codes "-f")
    ∷ word_boundary
    ∷ [])

unfoldable pub hard_block_patterns : List Regex
unfolding folded letter blank in_command one_of lower_byte
hard_block_patterns =
    rm_root b'r' b'f'
    ∷ rm_root b'f' b'r'
    ∷ rm_system
    ∷ dd_disk
    ∷ mkfs_disk
    ∷ on_device (codes "wipefs")
    ∷ on_device (codes "shred")
    ∷ fork_bomb
    ∷ to_disk
    ∷ chmod_system
    ∷ chown_system
    ∷ rm_sudoers
    ∷ to_sudoers
    ∷ rm_keys
    ∷ halt_host
    ∷ stop_agent
    ∷ remove_agent
    ∷ flush_rules
    ∷ []

unfoldable pub curl_pipe_shell_pattern : Regex
unfolding folded blank in_command
curl_pipe_shell_pattern = chain (
    word_boundary
    ∷ words_of (codes "curl") (codes "wget" ∷ [])
    ∷ word_boundary
    ∷ filler
    ∷ byte b'|'
    ∷ spaces
    ∷ opt (seq (folded (codes "sudo")) (plus space))
    ∷ words_of (codes "bash") (codes "sh" ∷ codes "zsh" ∷ codes "ksh" ∷ [])
    ∷ word_boundary
    ∷ [])
