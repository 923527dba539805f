-- ===== src/Config/Tests.antt =====
-- Runs and witnesses for config/wsx.rb.
use olwsx.Base.{none, ◌≡◌, refl, true, codes, some, List, [], ◌∷◌}
use olwsx.Config.Lexer.{tokenize, tokenize_from, step, span, scan_string}
use olwsx.Config.Parser.{
  parse_text, parse, no_statement, parse_from, round, statement, parse_generation, expect_word,
  parse_waf_rule,
}
use olwsx.Config.Parser.RoundTrip.{
  Statement, route, header, waf, ratelimit, cache, generation, apply_all,
}
use olwsx.Config.Compiler.{Compiled, group_from, validate, compile_text}
use olwsx.Config.Compiler.Validated.{AreObjectsOf, compile_text-AreObjectsOf}
use olwsx.Config.RoundTrip.{IsWord_lem, written, parse_text-written}

abbrev site : List Statement
site =
    route (record {
      prefix = codes "/a";
      status_override = some 404;
      static_body = some (codes "gone");
      flags = codes "COMP_GZIP" ∷ codes "SEC_OK" ∷ [];
    })
    ∷ header (record { key = codes "X-Note"; value = 34 ∷ 10 ∷ 92 ∷ []; prefix = codes "/a" })
    ∷ waf true (codes "..")
    ∷ ratelimit (record { capacity = 100; refill_per_s = 20; retry_after_s = 0 })
    ∷ cache (record { key = codes "k"; value = codes "v"; flags = codes "CACHE_L2" ∷ [] })
    ∷ generation 12
    ∷ []

parse_text-written_example : parse_text (written site) ≡ some (apply_all site no_statement)
parse_text-written_example = parse_text-written site (
  (IsWord_lem (codes "COMP_GZIP") refl, (IsWord_lem (codes "SEC_OK") refl, tt)),
  (tt, (tt, (tt, ((IsWord_lem (codes "CACHE_L2") refl, tt), (tt, tt))))),
)

-- A comment, an empty line and two statements on one line.
parse_text_runs :
    parse_text (codes "# note\n\ngeneration 7 waf block_path_contains \"..\"")
    ≡ some (apply_all (generation 7 ∷ waf true (codes "..") ∷ []) no_statement)
unfolding parse_text tokenize parse tokenize_from step span scan_string parse_from round statement
    parse_generation expect_word parse_waf_rule
parse_text_runs = refl

compile_text-AreObjectsOf_example :
    (c : Compiled) × ((compile_text none (written site) ≡ some c)
      × AreObjectsOf
          (apply_all site no_statement).headers
          (apply_all site no_statement).routes
          c.routes)
unfolding validate group_from
compile_text-AreObjectsOf_example =
    compile_text-AreObjectsOf none (written site) (apply_all site no_statement)
      parse_text-written_example refl
