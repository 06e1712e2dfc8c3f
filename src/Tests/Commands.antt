-- ===== src/Tests/Commands.antt =====
-- Command lines, their arguments and the access rule at concrete texts.
use xiaobai_os.Base.{
  ◌^◌, ◌<◌, ◌≡◌, ◌↔◌, ◌⊎◌, refl, arith, true, some, none, [], ◌∷◌, ◌++◌, Bytes, codes, length, not,
  ◌&&◌, ◌==◌, ltb, if◌then◌else◌,
}
use xiaobai_os.Libc.Ctype.{isspace, isdigit}
use xiaobai_os.Runtime.Resolve.{
  push_component, back_to_slash, pop_component, is_dot, is_dot_dot, enter, parse_from, parse_into,
  resolve_arg, resolve_path,
}
use xiaobai_os.Runtime.Words.{
  digits_from, parse_u64_dec, parse_line, split_two_args, has_suffix, contains_char, streq, copy,
}
use xiaobai_os.Runtime.Words.Numbers.{decimal, all_digits, parse_u64_dec-decimal}
use xiaobai_os.Runtime.Words.Laws.{parse_line-append, split_two_args-append}
use xiaobai_os.Runtime.Access.{
  can_modify_path, append_chars, exec_base, add_suffix, resolve_exec_path,
}
use xiaobai_os.Runtime.Access.Confined.{Within, temp, home, can_modify_path-Within}
use xiaobai_os.Runtime.Access.Exec.{IsElf, resolve_exec_path-IsElf}

parse_u64_dec_runs :
    (parse_u64_dec (codes "18446744073709551615") ≡ some 18446744073709551615)
    × (parse_u64_dec (codes "18446744073709551616") ≡ none)
unfolding parse_u64_dec digits_from isdigit
parse_u64_dec_runs = (refl, refl)

parse_line-append_example :
    parse_line (codes " " ++ (codes "echo" ++ (codes "  " ++ codes "a b"))) 4 160
    ≡ some (codes "ech", codes "a b")
unfolding isspace
parse_line-append_example =
    parse_line-append (codes " ") (codes "echo") (codes "  ") (codes "a b") 4 160 (refl, tt)
      (refl, (refl, (refl, (refl, tt)))) (λ e. cc) (refl, (refl, tt)) (λ e. cc) refl (omega arith)
      (omega arith)

split_two_args-append_example :
    split_two_args ([] ++ (codes "ab" ++ (codes " " ++ (codes "c" ++ codes " d")))) 192 192
    ≡ some (codes "ab", codes "c")
unfolding isspace
split_two_args-append_example =
    split_two_args-append [] (codes "ab") (codes " ") (codes "c") (codes " d") 192 192 tt
      (refl, (refl, tt)) (λ e. cc) (refl, tt) (λ e. cc) (refl, tt) (λ e. cc) refl (omega arith)
      (omega arith)

-- `/temp/../home/ann/x` for the user ann.
abbrev arg : Bytes
arg = codes "/temp/../home/ann/x"

resolved : resolve_path [] (some arg) 192 ≡ some (codes "/home/ann/x")
unfolding resolve_path push_component pop_component back_to_slash is_dot is_dot_dot enter parse_from
    parse_into resolve_arg
resolved = refl

can_modify_path-Within_example :
    (can_modify_path 1000 (codes "ann") (codes "/home/ann/x") ≡ true) ↔ (
      Within (temp ∷ []) (codes "/home/ann/x")
      ⊎ Within (home ∷ (codes "ann" ∷ [])) (codes "/home/ann/x"))
can_modify_path-Within_example =
    can_modify_path-Within [] (some arg) 192 1000 (codes "ann") (omega arith) resolved (omega arith)
      ((λ e. cc), (omega arith, (omega arith, (omega arith, tt))))

exec_runs : resolve_exec_path [] (codes "ls") 192 ≡ some (codes "/shell/ls.elf")
unfolding resolve_exec_path exec_base add_suffix append_chars has_suffix contains_char streq copy
exec_runs = refl

resolve_exec_path-IsElf_example :
    IsElf (codes "/shell/ls.elf") × (length (codes "/shell/ls.elf") < 192)
resolve_exec_path-IsElf_example =
    resolve_exec_path-IsElf [] (codes "ls") 192 (omega arith) exec_runs

parse_u64_dec-decimal_example : parse_u64_dec (codes "4x") ≡ (
    if not (length (codes "4x") == 0)
      && all_digits (codes "4x")
      && ltb (decimal 0 (codes "4x")) (2 ^ 64)
    then some (decimal 0 (codes "4x"))
    else none)
parse_u64_dec-decimal_example = parse_u64_dec-decimal (codes "4x")
