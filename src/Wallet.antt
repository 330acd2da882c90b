-- ===== src/Wallet.antt =====
-- src/wallet/walletService.ts: the wallet's session, balance and memos, over the memory store.
pub mod Service
pub mod Balance
pub mod Memos
pub mod Ports
mod Tests
