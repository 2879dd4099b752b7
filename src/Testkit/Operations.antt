-- ===== src/Testkit/Operations.antt =====
-- The table of operations of crates/testkit/src/catalog.rs, in the order of the source.
use falkr_lite.Base.{List, [], ◌∷◌, ◌++◌}
use falkr_lite.Base.Text.{Text, codes}
use falkr_lite.Testkit.Phase.{Phase, p02, p03, p04, p05, p06, p07, p08, p09, p10, p11, p12, p15}

pub record OperationSpec : Type 0 where
  pub kind : Text
  pub phase : Phase
  pub summary : Text

abbrev op : Text → Phase → Text → OperationSpec
op kind phase summary = record { kind = kind; phase = phase; summary = summary }

abbrev pub ledger_operations : List OperationSpec
ledger_operations =
    op (codes "post_entry") p02 (codes "Post an explicit, hand-written journal entry")
    ∷ op (codes "reverse_entry") p02 (codes "Reverse a previously posted entry by its `ref`")
    ∷ op (codes "set_capitalization") p02 (codes "Change a run's capitalize-vs-expense status")
    ∷ []

abbrev pub posting_operations : List OperationSpec
posting_operations =
    op (codes "open_balances") p03
      (codes "Seed opening balances for a period (posts against opening equity)")
    ∷ op (codes "post_by_rule") p03
        (codes "Post an entry derived from a business event by a posting rule")
    ∷ op (codes "void_entry") p03
        (codes "Void an entry before it is posted (distinct from reversing a posted one)")
    ∷ []

abbrev pub close_operations : List OperationSpec
close_operations =
    op (codes "advance_to") p04 (codes "Move the scenario clock to a date")
    ∷ op (codes "accrue") p04 (codes "Post an accrual")
    ∷ op (codes "reverse_accrual") p04 (codes "Auto-reverse an accrual in the following period")
    ∷ op (codes "amortize_prepaid") p04 (codes "Run one period of a prepaid amortization schedule")
    ∷ op (codes "close_period") p04 (codes "Close a period for a book")
    ∷ op (codes "close_year") p04 (codes "Close revenue and expense to retained earnings")
    ∷ op (codes "lock_subledger") p04 (codes "Lock one subledger while leaving GL open")
    ∷ op (codes "post_close_adjustment") p04 (codes "Post an adjustment into a closed period")
    ∷ op (codes "reopen_period") p04 (codes "Reopen a closed period")
    ∷ op (codes "attempt_mutation") p04
        (codes "Attempt a mutation that must be refused, naming the entry point")
    ∷ op (codes "restate") p04 (codes "Big-R restatement of a prior issued period")
    ∷ op (codes "revise") p04 (codes "little-r revision recorded in the current period")
    ∷ []

abbrev pub fx_operations : List OperationSpec
fx_operations =
    op (codes "set_fx_rate") p05 (codes "Publish an FX rate for a date")
    ∷ op (codes "revalue_monetary") p05
        (codes "ASC 830 period-end remeasurement of monetary balances")
    ∷ op (codes "translate_entity") p05
        (codes "Translate a foreign entity's balances, producing CTA")
    ∷ op (codes "settle_balance") p05 (codes "Settle a foreign-currency balance, realizing FX")
    ∷ op (codes "flag_long_term_intercompany") p05
        (codes "Mark or unmark an intercompany balance as long-term-investment nature")
    ∷ op (codes "mark_currency_non_exchangeable") p05
        (codes "IAS 21 lack-of-exchangeability estimation")
    ∷ op (codes "release_cta") p05
        (codes "Release CTA to income on disposal of a foreign operation")
    ∷ []

abbrev pub revenue_operations : List OperationSpec
revenue_operations =
    op (codes "create_contract") p06 (codes "Open an ASC 606 contract")
    ∷ op (codes "allocate_price") p06
        (codes "Allocate the transaction price across performance obligations")
    ∷ op (codes "invoice") p06 (codes "Raise an invoice")
    ∷ op (codes "recognize_ratably") p06 (codes "Recognize one period of a ratable schedule")
    ∷ op (codes "record_usage") p06 (codes "Record metered usage")
    ∷ op (codes "sell_credits") p06 (codes "Sell prepaid credits, possibly at a discount")
    ∷ op (codes "consume_credits") p06 (codes "Consume prepaid credits")
    ∷ op (codes "expire_credits") p06 (codes "Expire unconsumed credits")
    ∷ op (codes "true_up_commitment") p06
        (codes "True up a minimum commitment against actual usage")
    ∷ op (codes "modify_contract") p06
        (codes "Apply a contract modification (prospective or cumulative catch-up)")
    ∷ op (codes "issue_credit_memo") p06 (codes "Issue a credit memo against an invoice")
    ∷ op (codes "record_agent_revenue") p06
        (codes "Record resold third-party inference gross or net")
    ∷ []

abbrev pub receivable_operations : List OperationSpec
receivable_operations =
    op (codes "receive_payment") p07 (codes "Apply cash to a receivable")
    ∷ op (codes "record_cecl_allowance") p07 (codes "Record or adjust the CECL allowance")
    ∷ op (codes "write_off_receivable") p07 (codes "Write a receivable off against the allowance")
    ∷ []

abbrev pub payable_operations : List OperationSpec
payable_operations =
    op (codes "receive_goods") p08 (codes "Goods receipt into GR/IR")
    ∷ op (codes "record_vendor_invoice") p08 (codes "Record a vendor invoice")
    ∷ op (codes "pay_vendor") p08 (codes "Pay a vendor invoice")
    ∷ []

abbrev pub asset_operations : List OperationSpec
asset_operations =
    op (codes "acquire_asset") p09 (codes "Acquire a depreciable asset")
    ∷ op (codes "place_in_service") p09 (codes "Place an asset in service on a date")
    ∷ op (codes "depreciate") p09 (codes "Run one period of depreciation")
    ∷ op (codes "change_useful_life") p09
        (codes "Change an asset's remaining life (prospective only)")
    ∷ op (codes "test_impairment") p09 (codes "Run the two-step long-lived asset impairment test")
    ∷ op (codes "dispose_asset") p09 (codes "Dispose of an asset, fully or partly")
    ∷ op (codes "commence_lease") p09 (codes "Recognize a lease at commencement")
    ∷ op (codes "identify_embedded_lease") p09
        (codes "Identify a lease embedded in a services contract and separate its components")
    ∷ op (codes "lease_payment") p09 (codes "Record one lease payment period")
    ∷ op (codes "remeasure_lease") p09 (codes "Remeasure a lease on a change in term or payments")
    ∷ op (codes "record_commitment_disclosure") p09
        (codes "Record a non-lease purchase commitment for the ASC 440 table")
    ∷ []

abbrev pub tax_operations : List OperationSpec
tax_operations =
    op (codes "determine_tax") p10 (codes "Run tax determination on a sale")
    ∷ op (codes "apply_exemption_certificate") p10
        (codes "Apply (or fail to apply) an exemption certificate")
    ∷ op (codes "record_withholding") p10 (codes "Record withholding tax on an inbound payment")
    ∷ []

abbrev pub payroll_operations : List OperationSpec
payroll_operations =
    op (codes "run_payroll") p11 (codes "Run one payroll")
    ∷ op (codes "accrue_bonus") p11 (codes "Accrue a bonus")
    ∷ op (codes "pay_bonus") p11 (codes "Pay an accrued bonus")
    ∷ op (codes "grant_equity") p11 (codes "Grant options or RSUs")
    ∷ op (codes "vest_tranche") p11 (codes "Recognize one vesting tranche")
    ∷ op (codes "forfeit_grant") p11 (codes "Forfeit an unvested grant")
    ∷ op (codes "liquidity_event") p11 (codes "Satisfy the second trigger on double-trigger RSUs")
    ∷ op (codes "modify_grant") p11 (codes "Reprice or otherwise modify a grant")
    ∷ op (codes "early_exercise") p11 (codes "Early-exercise unvested options")
    ∷ []

abbrev pub consolidation_operations : List OperationSpec
consolidation_operations =
    op (codes "eliminate_intercompany") p12 (codes "Eliminate intercompany balances and profit")
    ∷ op (codes "attribute_to_nci") p12
        (codes "Attribute income and unrealized profit to non-controlling interests")
    ∷ op (codes "consolidate") p12 (codes "Roll subsidiaries up to the parent")
    ∷ op (codes "record_equity_method") p12 (codes "Record an equity-method investee's results")
    ∷ []

abbrev pub reporting_operations : List OperationSpec
reporting_operations =
    op (codes "assert_export") p15
      (codes "Produce a statutory export and reconcile it to the ledger")
    ∷ []

unfoldable pub operations : List OperationSpec
operations =
    ledger_operations ++ posting_operations ++ close_operations ++ fx_operations
    ++ revenue_operations ++ receivable_operations ++ payable_operations ++ asset_operations
    ++ tax_operations ++ payroll_operations ++ consolidation_operations ++ reporting_operations
