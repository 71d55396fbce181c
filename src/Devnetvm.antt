-- ===== src/Devnetvm.antt =====
-- packages/core/ledger/vm/devnetvm: the checks of the ledger's virtual machine.
pub mod Balances
pub mod Outputs
pub mod AliasOutput
pub mod LockedOutputs
pub mod Execution
pub mod Alias
pub mod UnlockGraph
mod Tests
mod TransactionTests
