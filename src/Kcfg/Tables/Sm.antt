-- ===== src/Kcfg/Tables/Sm.antt =====
-- src/kcfg.c: the items of the U2R, of the Station Master and its DeLuxe version.
use mhuxd.Base.{List, [], ◌∷◌}
use mhuxd.Kcfg.Items.{Citem, item}

-- `c_u2r`
unfoldable pub c_u2r : List Citem
c_u2r =
    item "r2FrBase" 14 7 8 234
    ∷ item "singleSerialCw" 15 1 1 0
    ∷ item "singleSerialPtt" 15 2 1 0
    ∷ item "r2DelaySerialPtt" 16 1 1 0
    ∷ item "lastOneWins" 16 2 1 0
    ∷ item "dualTx" 16 3 1 0
    ∷ item "useLptPtt" 16 4 1 0
    ∷ item "useLptCw" 16 5 1 0
    ∷ item "r2InvertFsk" 16 7 1 0
    ∷ item "disableBandLock" 17 4 1 0
    ∷ item "r2KeyerMode" 17 6 2 0
    ∷ item "r2ForceKeyerMode" 18 0 1 0
    ∷ item "singleSerialFsk" 18 1 1 0
    ∷ item "r2AllowCwInVoice" 18 5 1 0
    ∷ item "singleWinkeyCwPtt" 18 6 1 0
    ∷ item "r2PttDelay" 19 7 8 0
    ∷ item "txFocusAutoCmd" 22 0 1 0
    ∷ item "rxFocusAutoCmd" 22 1 1 0
    ∷ item "stereoFocusAutoCmd" 22 2 1 0
    ∷ item "txFocusAuto2Ptt" 22 3 1 0
    ∷ item "rxFocusFollowTx" 22 4 1 0
    ∷ item "stereoFocusNone" 22 5 1 0
    ∷ item "txFocusPinInverted" 23 0 1 0
    ∷ item "rxFocusPinInverted" 23 1 1 0
    ∷ item "stereoFocusPinInverted" 23 2 1 0
    ∷ item "txFocusPin3" 23 3 1 0
    ∷ item "stereoFocusPin5" 23 4 1 0
    ∷ item "audioSwitchingDelay" 28 7 8 0
    ∷ item "r2InvertLnaPtt" 29 0 1 0
    ∷ item "rxFocus_r1RxRx" 40 0 1 0
    ∷ item "split_r1RxRx" 40 1 1 0
    ∷ item "rxFocus_r1TxRxComputer" 40 2 1 0
    ∷ item "split_r1TxRxComputer" 40 3 1 0
    ∷ item "rxFocus_r2RxRx" 40 4 1 0
    ∷ item "split_r2RxRx" 40 5 1 0
    ∷ item "rxFocus_r2RxTxComputer" 40 6 1 0
    ∷ item "split_r2RxTxComputer" 40 7 1 0
    ∷ item "rxFocus_earsStereo" 40 8 1 0
    ∷ item "split_earsStereo" 40 9 1 0
    ∷ item "rxFocus_r1TxRxManual" 40 12 1 0
    ∷ item "split_r1TxRxManual" 40 13 1 0
    ∷ item "rxFocus_r2RxTxManual" 40 14 1 0
    ∷ item "split_r2RxTxManual" 40 15 1 0
    ∷ []

-- `c_sm`
unfoldable pub c_sm : List Citem
c_sm =
    item "pwmContrast" 0 4 5 15
    ∷ item "pwmBlight" 1 4 5 25
    ∷ item "dispBg0" 2 7 8 13
    ∷ item "dispBg1" 3 7 8 16
    ∷ item "dispEv.steppirState" 4 0 1 0
    ∷ item "dispEv.steppirLock" 4 1 1 0
    ∷ item "dispEv.steppirCommands" 4 2 1 0
    ∷ item "dispEv.portAVolt" 4 3 1 0
    ∷ item "dispEv.portBVolt" 4 4 1 0
    ∷ item "dispEv.txFreqChange" 4 5 1 0
    ∷ item "dispEv.rxFreqChange" 4 6 1 0
    ∷ item "dispEv.operFreqChange" 4 7 1 0
    ∷ item "dispEv.vfoAFreqChange" 4 8 1 0
    ∷ item "dispEv.vfoBFreqChange" 4 9 1 0
    ∷ item "dispEv.curAntChange" 4 10 1 0
    ∷ item "dispEv.rotatorStateChange" 4 11 1 0
    ∷ item "dispEv.bandChange" 4 12 1 0
    ∷ item "dispEv.antChange" 4 13 1 0
    ∷ item "dispEv.txAntChange" 4 14 1 0
    ∷ item "dispEv.virtRotatorStateChange" 4 15 1 0
    ∷ item "dispEv.andSelectionSplit" 4 16 1 0
    ∷ item "dispEv.group" 4 17 1 0
    ∷ item "dispEvLn.steppirState" 8 0 1 0
    ∷ item "dispEvLn.steppirLock" 8 1 1 0
    ∷ item "dispEvLn.steppirCommands" 8 2 1 0
    ∷ item "dispEvLn.portAVolt" 8 3 1 0
    ∷ item "dispEvLn.portBVolt" 8 4 1 0
    ∷ item "dispEvLn.txFreqChange" 8 5 1 0
    ∷ item "dispEvLn.rxFreqChange" 8 6 1 0
    ∷ item "dispEvLn.operFreqChange" 8 7 1 0
    ∷ item "dispEvLn.vfoAFreqChange" 8 8 1 0
    ∷ item "dispEvLn.vfoBFreqChange" 8 9 1 0
    ∷ item "dispEvLn.curAntChange" 8 10 1 0
    ∷ item "dispEvLn.rotatorStateChange" 8 11 1 0
    ∷ item "dispEvLn.bandChange" 8 12 1 0
    ∷ item "dispEvLn.antChange" 8 13 1 0
    ∷ item "dispEvLn.txAntChange" 8 14 1 0
    ∷ item "dispEvLn.virtRotatorStateChange" 8 15 1 0
    ∷ item "dispEvLn.andSelectionSplit" 8 16 1 0
    ∷ item "dispEvLn.group" 8 17 1 0
    ∷ item "dispEvTime" 12 7 8 200
    ∷ item "assignedToR2" 13 0 1 0
    ∷ item "enableSleepMode" 13 1 1 0
    ∷ item "buttonBeep" 13 2 1 0
    ∷ item "alarmBeep" 13 3 1 0
    ∷ item "forwardNumpadKeys" 13 4 1 0
    ∷ item "i2cCoupled" 13 5 1 0
    ∷ item "keyFuncFh2.1" 14 7 8 4
    ∷ item "keyFuncFh2.2" 15 7 8 5
    ∷ item "keyFuncFh2.3" 16 7 8 6
    ∷ item "keyFuncFh2.4" 17 7 8 7
    ∷ item "keyFuncFh2.5" 18 7 8 8
    ∷ item "keyFuncFh2.6" 19 7 8 9
    ∷ item "keyFuncFh2.7" 20 7 8 10
    ∷ item "keyFuncFh2.8" 21 7 8 11
    ∷ item "keyFuncFh2.9" 22 7 8 12
    ∷ item "keyFuncFh2.10" 23 7 8 13
    ∷ item "keyFuncFh2.11" 24 7 8 14
    ∷ item "keyFuncFh2.12" 25 7 8 15
    ∷ item "keyFuncPs2.shift0" 26 7 8 34
    ∷ item "keyFuncPs2.shift1" 27 7 8 36
    ∷ item "keyFuncPs2.shift2" 28 7 8 37
    ∷ item "keyFuncPs2.shift3" 29 7 8 38
    ∷ item "keyFuncPs2.shift4" 30 7 8 39
    ∷ item "keyFuncPs2.shift5" 31 7 8 24
    ∷ item "keyFuncPs2.shift6" 32 7 8 25
    ∷ item "keyFuncPs2.shift7" 33 7 8 43
    ∷ item "keyFuncPs2.shift8" 34 7 8 44
    ∷ item "keyFuncPs2.shift9" 35 7 8 45
    ∷ item "keyFuncPs2.0" 36 7 8 13
    ∷ item "keyFuncPs2.1" 37 7 8 4
    ∷ item "keyFuncPs2.2" 38 7 8 5
    ∷ item "keyFuncPs2.3" 39 7 8 6
    ∷ item "keyFuncPs2.4" 40 7 8 7
    ∷ item "keyFuncPs2.5" 41 7 8 8
    ∷ item "keyFuncPs2.6" 42 7 8 9
    ∷ item "keyFuncPs2.7" 43 7 8 10
    ∷ item "keyFuncPs2.8" 44 7 8 11
    ∷ item "keyFuncPs2.9" 45 7 8 12
    ∷ []
