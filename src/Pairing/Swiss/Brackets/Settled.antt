-- ===== src/Pairing/Swiss/Brackets/Settled.antt =====
-- The rounds of `pairAllBrackets`, src/core/pairing/swiss/score-brackets.ts, for any matching at all.
