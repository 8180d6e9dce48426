-- ===== src/Settlements/Style.antt =====
-- pages/billing/settlements/print.ts: the style of the page that is printed.
use zhiyuche.Common.{String, List, [], ◌∷◌}

-- The rules of the page's style.
abbrev pub style : List String
style =
    "<style>\n" ∷ "  @page { size: A4; margin: 16mm 14mm; }\n" ∷ "  * { box-sizing: border-box; }\n"
    ∷ "  body { font-family: \"PingFang SC\", \"Microsoft YaHei\", \"Noto Sans CJK SC\", sans-serif; color: #1e293b; font-size: 12px; margin: 0; padding: 24px; }\n"
    ∷ "  .sheet { max-width: 820px; margin: 0 auto; }\n"
    ∷ "  h1 { font-size: 20px; text-align: center; letter-spacing: 2px; margin: 0 0 4px; }\n"
    ∷ "  .sub { text-align: center; color: #64748b; font-size: 12px; margin-bottom: 16px; }\n"
    ∷ "  .rule { border: 0; border-top: 2px solid #1e293b; margin: 12px 0; }\n"
    ∷ "  .rule.thin { border-top: 1px dashed #94a3b8; }\n"
    ∷ "  .meta { display: grid; grid-template-columns: 1fr 1fr; gap: 4px 24px; }\n"
    ∷ "  .meta div { display: flex; gap: 8px; }\n"
    ∷ "  .meta b { color: #475569; font-weight: 500; min-width: 5em; }\n"
    ∷ "  table { width: 100%; border-collapse: collapse; margin-top: 6px; }\n"
    ∷ "  th, td { padding: 6px 8px; text-align: left; border-bottom: 1px solid #e2e8f0; }\n"
    ∷ "  th { background: #f1f5f9; font-weight: 600; color: #475569; font-size: 11px; }\n"
    ∷ "  td.num, th.num { text-align: right; font-variant-numeric: tabular-nums; }\n"
    ∷ "  .summary td.total { font-weight: 700; font-size: 14px; }\n"
    ∷ "  tfoot td { font-weight: 600; background: #f8fafc; }\n"
    ∷ "  h3 { font-size: 13px; margin: 16px 0 2px; color: #334155; }\n"
    ∷ "  .muted { color: #94a3b8; }\n"
    ∷ "  .footer { margin-top: 20px; color: #64748b; font-size: 11px; display: flex; justify-content: space-between; }\n"
    ∷ "  .actions { text-align: right; margin-bottom: 12px; }\n"
    ∷ "  .actions button { font: inherit; padding: 6px 14px; border: 1px solid #cbd5e1; border-radius: 6px; background: #fff; cursor: pointer; }\n"
    ∷ "  .stamp { display: inline-block; padding: 2px 8px; border: 1px solid currentColor; border-radius: 4px; font-size: 11px; }\n"
    ∷ "  .stamp.ok { color: #047857; }\n" ∷ "  .stamp.draft { color: #b45309; }\n"
    ∷ "  @media print { .actions { display: none; } body { padding: 0; } }\n" ∷ "</style>\n"
    ∷ "</head>\n" ∷ []
